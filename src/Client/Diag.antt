-- ===== src/Client/Diag.antt =====
-- cmd/entropy-client/internal/diag: the counts behind the client's diagnostics.
pub mod Counts
pub mod Run
pub mod Rate
pub mod Laws
