-- ===== src/Budget/WebSocket.antt =====
-- cmd/entropy-server/ws_budget.go: reservations and admission of WebSockets. A request counts
-- only by whether its context is already canceled. `int` and `int64` are integers; the sums stay
-- below the limits that the guards check, so they do not wrap (`ws_reservation-le`,
-- `Laws.ws_admit-Admits`).
use entropy_service.Prelude.{ℕ, ◌+◌, ◌-◌, ◌*◌, ◌/◌, Bool, false, ◌||◌, List, leb, if◌then◌else◌}
use entropy_service.Prelude.Int.{ℤ, pos, ◌-ℤ◌, pos_part, leb_ℤ, ltb_ℤ}
use entropy_service.Prelude.Word.{add64, max_int64}
use entropy_service.Prelude.Outcome.{Outcome, ok, err}
use entropy_service.Budget.Defs.{
  Budget, Refusal, Ticket, status_too_large, status_unavailable, refuse, grant, idle_budget,
  longest_word,
}

abbrev pub ws_inbound_limit : ℕ
ws_inbound_limit = 1024

abbrev pub ws_connection_memory : ℕ
ws_connection_memory = 65536

abbrev pub ws_json_memory_factor : ℕ
ws_json_memory_factor = 16

-- The dictionary is that of a package; the constructor reads only the lengths of its words.
unfoldable pub new_web_socket_budget : List ℕ → ℕ → ℕ → Budget
unfolding longest_word
new_web_socket_budget word_lengths max_connections max_memory =
    idle_budget max_connections max_memory (128 + 16 * (longest_word 0 word_lengths + 1))

-- `per_item` is positive at every call: 1, the JSON factor or the word memory.
unfoldable pub ws_reservation : ℤ → ℕ → ℕ
ws_reservation quantity per_item =
    if ltb_ℤ quantity (pos 1)
      || ltb_ℤ (pos ((max_int64 - ws_connection_memory) / per_item)) quantity
    then max_int64
    else ws_connection_memory + pos_part quantity * per_item

unfoldable pub ws_byte_reservation : ℤ → Bool → ℕ
unfolding ws_reservation
ws_byte_reservation quantity json_frame =
    ws_reservation quantity (if json_frame then ws_json_memory_factor else 1)

-- `admit`: the new budget, and the release closure or the error response.
unfoldable pub ws_admit : Bool → Budget → ℤ → Budget × Outcome Refusal Ticket
ws_admit canceled b needed =
    if canceled
    then (b, err (record (refuse status_unavailable "request canceled") { retry_after = false }))
    else if leb_ℤ needed (pos 0) || ltb_ℤ (pos b.max_memory) needed
    then (
      record b { rejected_size = add64 b.rejected_size 1 },
      err (
          refuse status_too_large
            "WebSocket request exceeds configured memory budget; reduce output size"),
    )
    else if leb b.max_active b.active
    then (
      record b { rejected_active = add64 b.rejected_active 1 },
      err (refuse status_unavailable "WebSocket connection budget exhausted"),
    )
    else if ltb_ℤ (pos b.max_memory -ℤ pos b.reserved) needed
    then (
      record b { rejected_memory = add64 b.rejected_memory 1 },
      err (refuse status_unavailable "WebSocket memory budget exhausted"),
    )
    else (grant b (pos_part needed), ok (record { needed = pos_part needed; released = false }))
