-- ===== src/Config.antt =====
-- cmd/entropy-server/internal/config/config.go: the server's configuration.
pub mod Validate
pub mod Laws
