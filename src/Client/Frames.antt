-- ===== src/Client/Frames.antt =====
-- cmd/entropy-client/internal/client/stream_buffer.go: frames of a stream in reused buffers.
pub mod Lease
pub mod Laws
