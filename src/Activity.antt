-- ===== src/Activity.antt =====
-- cmd/entropy-server/activity_peaks.go: the largest rates between two samples of the counters.
pub mod Monitor
pub mod Laws
