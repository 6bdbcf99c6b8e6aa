-- ===== src/Server.antt =====
-- app/server.py: the middleware of the application.
pub mod Http
pub mod RateLimit
pub mod Gateway
pub mod Headers
pub mod Lifespan
