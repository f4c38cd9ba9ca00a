-- ===== src/Middleware.antt =====
-- The middleware of src/middleware, but for auth.rs, which stands with Services.Businesses.
pub mod RateLimiter
pub mod Limits
