-- ===== src/Words.antt =====
-- cmd/entropy-server/words.go and the two word routes of entropy-server.go. The dictionary is that of
-- package diceware; `rand.Int`, `strings.Join` and SHA-256 in hexadecimal are packages' too.
pub mod Frame
pub mod Route
pub mod Laws
pub mod Answers
