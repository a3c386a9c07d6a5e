-- ===== src/Budget.antt =====
-- cmd/entropy-server/ws_budget.go and http_budget.go: admission accounting for WebSockets and for
-- HTTP generation. Both files keep the same state, so both are modelled over one record; their
-- two admission functions are kept apart (`WebSocket`, `Http`).
-- `Laws` is about what an admission may do, `History` about any order of requests and releases,
-- `Settles` about a single admission that is given back.
pub mod Defs
pub mod WebSocket
pub mod Http
pub mod Laws
pub mod History
pub mod Settles
