-- ===== src/Handler.antt =====
-- The byte routes of cmd/entropy-server/entropy-server.go, which put the request parser, the
-- admission budgets and the generators together, and http_stream.go.
pub mod Http
pub mod Socket
pub mod Laws
pub mod Frame
pub mod FrameLaws
