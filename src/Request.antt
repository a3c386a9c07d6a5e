-- ===== src/Request.antt =====
-- cmd/entropy-server/entropy-server.go and ws_byte_format.go: what a request's query asks for.
-- `url.Values` is the list of the names that are present, with their values; `strconv.Atoi` is a
-- parameter. The preferences cookie is in Cookie. An error is told apart by its message.
pub mod Query
pub mod Bounds
pub mod Cookie
pub mod Remembers
