-- ===== src/Http.antt =====
-- app/core/middleware.py: the ASGI middlewares.
pub mod Bytes
pub mod Asgi
pub mod RequestId
pub mod BodyLimit
pub mod Timeout
pub mod AccessLog
pub mod SecurityHeaders
pub mod InFlight
pub mod ClientIp
