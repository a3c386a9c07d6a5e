-- ===== src/Client/Stats.antt =====
-- cmd/entropy-client/internal/stats/stream.go: statistics that grow with a stream.
pub mod Tester
pub mod Sums
pub mod Laws
