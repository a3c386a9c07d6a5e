-- ===== src/Source.antt =====
-- cmd/entropy-server/entropy_source.go: which entropy source the server opens. The operating
-- system (`os.Open`, `Stat`) is a parameter. `World` is whatever an open can change.
pub mod Select
