-- ===== src/Middleware.antt =====
-- internal/middleware: what stands before the handlers.
pub mod RateLimit
pub mod Jwt
