-- ===== src/Upload.antt =====
-- cmd/entropy-server/upload.go: the analysis of an uploaded file, and its route.
pub mod Analyze
pub mod Chunks
pub mod Laws
pub mod Route
pub mod Answers
