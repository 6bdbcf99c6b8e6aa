-- ===== src/Post/Writes.antt =====
-- The writing methods of the service keep the constraints and never violate one.
pub mod Create
pub mod Update
pub mod Flush
pub mod Rename
pub mod Retag
pub mod Edit
pub mod Requests
