-- ===== src/Server.antt =====
-- internal/server/api/ratelimit.go.
pub mod RateLimit
pub mod ClientIp
mod Tests
