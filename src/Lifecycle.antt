-- ===== src/Lifecycle.antt =====
-- cmd/entropy-server/lifecycle.go: a server whose shutdown waits for its handlers, and a
-- WebSocket whose cleanup waits for its reader.
pub mod Managed
pub mod Laws
pub mod Socket
pub mod Cleanup
pub mod Returns
