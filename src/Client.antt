-- ===== src/Client.antt =====
-- cmd/entropy-client: the parts of the client that are modelled.
pub mod Stats
pub mod Diag
pub mod Frames
pub mod Monitor
pub mod Transport
pub mod Program
