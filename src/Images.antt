-- ===== src/Images.antt =====
-- The image routes of cmd/entropy-server/entropy-server.go: the heat map of bit counts, the random
-- image and the QR code.
pub mod Pixels
pub mod Route
pub mod Loops
pub mod Laws
pub mod Answers
