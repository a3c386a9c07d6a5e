-- ===== src/Client/Monitor.antt =====
-- cmd/entropy-client/monitor.go: what is made of the frames, and how they are passed on.
pub mod Observe
pub mod Stream
pub mod Sampling
pub mod Frames
pub mod Interrupt
pub mod Shutdown
