-- ===== src/Client/Transport.antt =====
-- cmd/entropy-client/internal/client: a fetch over HTTP and the test of a WebSocket.
pub mod Fetch
pub mod Socket
pub mod Laws
