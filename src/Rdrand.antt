-- ===== src/Rdrand.antt =====
-- cmd/entropy-server/internal/rdrand: CPU randomness mixed into the configured source.
pub mod Mixer
pub mod Key
pub mod Laws
