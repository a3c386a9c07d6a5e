-- ===== src/Startup.antt =====
-- `main` of cmd/entropy-server/entropy-server.go up to its root generator, and its routes.
pub mod Seed
pub mod Root
pub mod Laws
