-- ===== src/Post.antt =====
-- app/post: the request and response shapes, the queries, the service, and their theorems.
pub mod Schemas
pub mod Repository
pub mod Service
pub mod Listing
pub mod Nav
pub mod Search
pub mod Routes
pub mod Public
pub mod Writes
pub mod Site
pub mod Answered
