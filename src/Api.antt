-- ===== src/Api.antt =====
-- apps/api/cmd/server/session.go: the HTTP interface to translation sessions.
pub mod Input
pub mod Handlers
pub mod WebSocket
