-- ===== src/Reseed.antt =====
-- The reseed loop of cmd/entropy-server/entropy-server.go.
pub mod Loop
pub mod Laws
