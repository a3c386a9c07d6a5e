-- ===== src/Budget/Http.antt =====
-- cmd/entropy-server/http_budget.go: the same accounting for HTTP generation requests.
use entropy_service.Prelude.{ℕ, ◌+◌, ◌-◌, ◌*◌, ◌/◌, Bool, false, ◌||◌, List, leb, if◌then◌else◌}
use entropy_service.Prelude.Int.{ℤ, pos, ◌-ℤ◌, pos_part, leb_ℤ, ltb_ℤ}
use entropy_service.Prelude.Word.{add64, max_int64}
use entropy_service.Prelude.Outcome.{Outcome, ok, err}
use entropy_service.Budget.Defs.{
  Budget, Refusal, Ticket, status_too_large, status_unavailable, refuse, grant, idle_budget,
  longest_word, release,
}

abbrev pub http_request_memory : ℕ
http_request_memory = 65536

unfoldable pub new_http_request_budget : List ℕ → ℕ → ℕ → Budget
unfolding longest_word
new_http_request_budget word_lengths max_requests max_memory =
    idle_budget max_requests max_memory (128 + 16 * (longest_word 0 word_lengths + 1))

unfoldable pub http_reservation : ℤ → ℤ → ℕ
http_reservation quantity per_item =
    if ltb_ℤ quantity (pos 1)
      || ltb_ℤ per_item (pos 1)
      || ltb_ℤ (pos ((max_int64 - http_request_memory) / pos_part per_item)) quantity
    then max_int64
    else http_request_memory + pos_part quantity * pos_part per_item

unfoldable pub try_reserve : Budget → ℤ → Budget × Outcome Refusal Ticket
try_reserve b needed =
    if leb_ℤ needed (pos 0) || ltb_ℤ (pos b.max_memory) needed
    then (
      record b { rejected_size = add64 b.rejected_size 1 },
      err (refuse status_too_large "HTTP request exceeds configured generation memory budget"),
    )
    else if leb b.max_active b.active
    then (
      record b { rejected_active = add64 b.rejected_active 1 },
      err (refuse status_unavailable "HTTP generation request budget exhausted"),
    )
    else if ltb_ℤ (pos b.max_memory -ℤ pos b.reserved) needed
    then (
      record b { rejected_memory = add64 b.rejected_memory 1 },
      err (refuse status_unavailable "HTTP generation memory budget exhausted"),
    )
    else (grant b (pos_part needed), ok (record { needed = pos_part needed; released = false }))

-- `admit`: a canceled request is refused before the budget is asked, and sets no Retry-After.
unfoldable pub http_admit : Bool → Budget → ℤ → Budget × Outcome Refusal Ticket
unfolding try_reserve
http_admit canceled b needed =
    if canceled
    then (b, err (record (refuse status_unavailable "request canceled") { retry_after = false }))
    else try_reserve b needed

abbrev pub wrap_verdict :
    {A : Type 0}
    → (Budget → Budget × A)
    → Budget
    → Outcome Refusal Ticket
    → Budget × Outcome Refusal A
wrap_verdict next b (err refusal) = (b, err refusal)
wrap_verdict next b (ok ticket) = let (b', reply) = next b in ((release b' ticket).0, ok reply)

-- `wrap`: the handler `next` runs only when admitted, and the deferred release follows it.
-- `next` maps the budget that it runs under to the one that it leaves, with its own response.
unfoldable pub wrap :
    {A : Type 0} → (Budget → Budget × A) → ℤ → Bool → Budget → Budget × Outcome Refusal A
unfolding http_admit release
wrap next needed canceled b =
    let (b', verdict) = http_admit canceled b needed in wrap_verdict next b' verdict
