-- ===== src/Server.antt =====
-- Components of chia/server.
pub mod RateLimits
