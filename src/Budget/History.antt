-- ===== src/Budget/History.antt =====
-- Any history of one budget: requests that are admitted or refused, and calls of the closures that
-- admissions returned, in any order and as often as callers like.
use entropy_service.Prelude.{
  ℕ, zero, suc, ◌+◌, ◌≤◌, ◌<◌, ◌≡◌, refl, Bool, false, List, [], ◌∷◌, arith, if◌then◌else◌,
}
use entropy_service.Prelude.Int.{ℤ, pos}
use entropy_service.Prelude.Outcome.{Outcome, ok, err}
use entropy_service.Budget.Defs.{Budget, Refusal, Ticket, grant, idle_budget, release}
use entropy_service.Budget.Laws.{Admits, ws_admit-Admits, http_admit-Admits, ws_admit-grants_iff}
use entropy_service.Budget.WebSocket.{ws_admit}
use entropy_service.Budget.Http.{http_admit}

-- What the clients of a budget are given: an admission function that keeps to `Admits`.
pub record Admission : Type 0 where
  pub admit : Bool → Budget → ℤ → Budget × Outcome Refusal Ticket
  pub sound :
      (c : Bool) (b : Budget) (needed : ℤ)
      → Admits b needed (admit c b needed).0 (admit c b needed).1

abbrev pub ws_admission : Admission
ws_admission = record { admit = ws_admit; sound = ws_admit-Admits }

abbrev pub http_admission : Admission
http_admission = record { admit = http_admit; sound = http_admit-Admits }

-- A request (is it canceled, what does it need), or a call of the closure of an admission, counted
-- from the newest.
pub data Event : Type 0 where
  request : Bool → ℤ → Event
  finish : ℕ → Event

-- The budget with every closure handed out so far, the newest first.
pub record World : Type 0 where
  pub budget : Budget
  pub tickets : List Ticket

unfoldable pub release_at : ℕ → Budget → List Ticket → Budget × List Ticket
release_at i b [] = (b, [])
release_at zero b (t ∷ ts) = let (b', t') = release b t in (b', t' ∷ ts)
release_at (suc i) b (t ∷ ts) = let (b', ts') = release_at i b ts in (b', t ∷ ts')

abbrev pub book : List Ticket → Budget × Outcome Refusal Ticket → World
book ts (b, err r) = record { budget = b; tickets = ts }
book ts (b, ok t) = record { budget = b; tickets = t ∷ ts }

unfoldable pub step : Admission → World → Event → World
unfolding release_at
step a w (request c needed) = book w.tickets (a.admit c w.budget needed)
step a w (finish i) =
    let (b, ts) = release_at i w.budget w.tickets in record { budget = b; tickets = ts }

unfoldable pub run : Admission → World → List Event → World
run a w [] = w
run a w (e ∷ es) = run a (step a w e) es

-- The admissions that are not released, and what they reserved together.
abbrev pub open_count : List Ticket → ℕ
open_count [] = 0
open_count (t ∷ ts) = (if t.released then 0 else 1) + open_count ts

abbrev pub held : List Ticket → ℕ
held [] = 0
held (t ∷ ts) = (if t.released then 0 else t.needed) + held ts

-- The accounts are exact, within the limits, and below the peaks.
pub record IsExact (w : World) : Type 0 where
  pub counted : w.budget.active ≡ open_count w.tickets
  pub summed : w.budget.reserved ≡ held w.tickets
  pub active_peak : w.budget.active ≤ w.budget.peak_active
  pub active_limit : w.budget.peak_active ≤ w.budget.max_active
  pub memory_peak : w.budget.reserved ≤ w.budget.peak_reserved
  pub memory_limit : w.budget.peak_reserved ≤ w.budget.max_memory

-- What `release_at` does to the two totals, from a budget that holds at least them.
record Released (b : Budget) (ts : List Ticket) (b' : Budget) (ts' : List Ticket) : Type 0 where
  count : b'.active + open_count ts ≡ b.active + open_count ts'
  sum : b'.reserved + held ts ≡ b.reserved + held ts'
  fewer : open_count ts' ≤ open_count ts
  less : held ts' ≤ held ts
  same : b' ≡ record b { active = b'.active; reserved = b'.reserved }

release_at-Released :
    (i : ℕ) (b : Budget) (ts : List Ticket)
    → open_count ts ≤ b.active
    → held ts ≤ b.reserved
    → Released b ts (release_at i b ts).0 (release_at i b ts).1
unfolding release_at release
release_at-Released i b [] h k = record {
  count = refl;
  sum = refl;
  fewer = omega arith;
  less = omega arith;
  same = refl;
}
release_at-Released zero b (t ∷ ts) h k = ground arith
release_at-Released (suc i) b (t ∷ ts) h k = ground (arith, release_at-Released i b ts)

book-IsExact :
    (w : World) (needed : ℤ) (r : Budget × Outcome Refusal Ticket)
    → Admits w.budget needed r.0 r.1
    → IsExact w
    → IsExact (book w.tickets r)
book-IsExact w needed (b, err x) h v = ground arith
book-IsExact w needed (b, ok t) h v = ground arith

book-limits :
    (w : World) (needed : ℤ) (r : Budget × Outcome Refusal Ticket)
    → Admits w.budget needed r.0 r.1
    → ((book w.tickets r).budget.max_active ≡ w.budget.max_active)
      × ((book w.tickets r).budget.max_memory ≡ w.budget.max_memory)
book-limits w needed (b, err x) h = ground arith
book-limits w needed (b, ok t) h = ground arith

pub step-IsExact : (a : Admission) (w : World) (e : Event) → IsExact w → IsExact (step a w e)
unfolding step
step-IsExact a w (request c needed) v =
    book-IsExact w needed (a.admit c w.budget needed) (a.sound c w.budget needed) v
step-IsExact a w (finish i) v = ground (arith, release_at-Released i w.budget w.tickets)

pub run-IsExact : (a : Admission) (es : List Event) (w : World) → IsExact w → IsExact (run a w es)
unfolding run
run-IsExact a [] w v = v
run-IsExact a (e ∷ es) w v = run-IsExact a es (step a w e) (step-IsExact a w e v)

abbrev pub fresh_world : ℕ → ℕ → ℕ → World
fresh_world max_active max_memory word_memory = record {
  budget = idle_budget max_active max_memory word_memory;
  tickets = [];
}

-- After any history of a fresh budget, whichever of the two admission functions it has, the active
-- count is the number of admissions not yet released, the reserved amount is their sum, and both
-- stay within the configured limits and below the recorded peaks.
pub run-fresh_world-IsExact :
    (a : Admission) (max_active max_memory word_memory : ℕ) (es : List Event)
    → IsExact (run a (fresh_world max_active max_memory word_memory) es)
run-fresh_world-IsExact a max_active max_memory word_memory es =
    run-IsExact a es (fresh_world max_active max_memory word_memory) (omega arith)

held_of_open_count : (ts : List Ticket) → open_count ts ≡ 0 → held ts ≡ 0
held_of_open_count [] h = refl
held_of_open_count (t ∷ ts) h = ground (arith, held_of_open_count ts)

limits-step :
    (a : Admission) (w : World) (e : Event)
    → IsExact w
    → ((step a w e).budget.max_active ≡ w.budget.max_active)
      × ((step a w e).budget.max_memory ≡ w.budget.max_memory)
unfolding step
limits-step a w (request c needed) v =
    book-limits w needed (a.admit c w.budget needed) (a.sound c w.budget needed)
limits-step a w (finish i) v = ground (arith, release_at-Released i w.budget w.tickets)

limits-run :
    (a : Admission) (es : List Event) (w : World)
    → IsExact w
    → ((run a w es).budget.max_active ≡ w.budget.max_active)
      × ((run a w es).budget.max_memory ≡ w.budget.max_memory)
unfolding run
limits-run a [] w v = (refl, refl)
limits-run a (e ∷ es) w v =
    ground (arith, limits-step a w e v, limits-run a es (step a w e) (step-IsExact a w e v))

-- Once every admission of a history is released, the whole capacity is back: any request that fits
-- the configured budget is admitted.
pub ws_admit-drained :
    (max_active max_memory word_memory k : ℕ) (es : List Event)
    → let w = run ws_admission (fresh_world max_active max_memory word_memory) es in
      open_count w.tickets ≡ 0
      → 0 < max_active
      → 0 < k
      → k ≤ max_memory
      → ws_admit false w.budget (pos k)
        ≡ (grant w.budget k, ok (record { needed = k; released = false }))
ws_admit-drained max_active max_memory word_memory k es drained h l m =
    (ws_admit-grants_iff false w.budget (pos k)).1 (
      ground (
        arith,
        run-fresh_world-IsExact ws_admission max_active max_memory word_memory es,
        held_of_open_count w.tickets,
        limits-run ws_admission es (fresh_world max_active max_memory word_memory) (omega arith),
      ))
  where
    w : World
    w = run ws_admission (fresh_world max_active max_memory word_memory) es
