-- ===== src/Auth.antt =====
-- core/auth: the rate limiter of the two routes that need no credential.
pub mod RateLimiter
pub mod ApiKeys
pub mod Middleware
pub mod Passwords
pub mod Routes
pub mod Bootstrap
