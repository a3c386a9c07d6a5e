-- ===== src/Observability.antt =====
-- cmd/entropy-server/observability.go: the readiness and metrics endpoints.
pub mod Health
pub mod Exposition
pub mod Laws
