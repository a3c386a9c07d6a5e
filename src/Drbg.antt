-- ===== src/Drbg.antt =====
-- cmd/entropy-server/internal/drbg: the deterministic generator, its backends and the private
-- generators of connections. The ciphers and SHA-512 are packages; they enter as a record.
pub mod Algorithm
pub mod Cipher
pub mod Generator
pub mod Invariant
pub mod Reads
pub mod Instances
pub mod Connection
pub mod Refresh
pub mod Private
pub mod Metadata
