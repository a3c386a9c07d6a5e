-- ===== src/Client/Program.antt =====
-- cmd/entropy-client/entropy-client.go, lifecycle.go and internal/config: from the options to the
-- monitor.
pub mod Run
pub mod Options
pub mod Laws
