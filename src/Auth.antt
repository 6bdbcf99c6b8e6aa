-- ===== src/Auth.antt =====
-- app/admin (entities and repository), app/core/security and api/v1/auth.py.
pub mod Repository
pub mod Password
pub mod Token
pub mod Routes
pub mod Replay
pub mod Issued
pub mod Keys
pub mod Login
pub mod Stable
pub mod Raised
pub mod Validity
pub mod Refusal
pub mod Rotation
pub mod Concurrent
pub mod Dependency
