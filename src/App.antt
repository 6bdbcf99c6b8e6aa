-- ===== src/App.antt =====
-- The application as a whole: api/root_router.py, api/v1/__init__.py, api/v1/admin.py and the routes
-- of api/v1 behind the middleware of app/server.py, over one database.
pub mod Store
pub mod Endpoints
pub mod Handlers
pub mod Serve
pub mod Middleware
pub mod Effects
pub mod Kept
pub mod Validity
pub mod Posts
pub mod History
pub mod LoginPath
pub mod Limit
pub mod Answered
pub mod SignOut
pub mod Access
pub mod Hop
