-- ===== src/StatusWriter.antt =====
-- cmd/entropy-server/request_logging.go: the response writer that remembers the status, and the
-- request observer.
pub mod Writer
pub mod Laws
