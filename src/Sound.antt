-- ===== src/Sound.antt =====
-- cmd/entropy-server/sound.go: the options of a sound, its synthesis, the WAV file and the route.
pub mod Options
pub mod Wav
pub mod Synthesis
pub mod RoundTrip
pub mod Route
pub mod Laws
