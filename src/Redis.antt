-- ===== src/Redis.antt =====
-- packages/go/backend/redis: a client of the Redis protocol (RESP).
pub mod Reply
pub mod Resp
pub mod Client
