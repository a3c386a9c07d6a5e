-- ===== src/Observability/Laws.antt =====
-- What the two endpoints tell of the generator and of the budgets.
use text.Mathlib.Text.{◌==◌}
use entropy_service.Prelude.{
  ℕ, ◌+◌, ◌≤◌, ◌≡◌, refl, Bool, true, false, not, ◌&&◌, Option, none, some, String, List, [], ◌∷◌,
  arith, length, if◌then◌else◌,
}
use entropy_service.Prelude.Int.{ℤ, pos}
use entropy_service.Drbg.Cipher.{Cipher, Documented}
use entropy_service.Drbg.Generator.{Process, Drbg, reseed, record_reseed_failure}
use entropy_service.Drbg.Invariant.{IsValid}
use entropy_service.Drbg.Reads.{reseed-ok}
use entropy_service.Drbg.Metadata.{get_metadata}
use entropy_service.Budget.Defs.{Budget, usage}
use entropy_service.Budget.History.{
  Event, run, ws_admission, http_admission, fresh_world, open_count, held, run-fresh_world-IsExact,
}
use entropy_service.Observability.Health.{reseed_ready, health_handler}
use entropy_service.Observability.Exposition.{Series, Value, Peaks, count, metrics_handler}

module _ {Block Stream : Type 0} (c : Cipher Block Stream) (doc : Documented c) where
  -- A reseed of a valid, open generator with at least 32 bytes makes the service healthy,
  -- whatever had failed before, and it stays so until the seed is older than the limit.
  pub health_handler-reseed :
      (p : Process) (seeded_at now k : ℕ) (seed : List ℕ) (d : Drbg Stream)
      → IsValid d
      → d.closed ≡ false
      → 32 ≤ length seed
      → seeded_at ≤ now
      → now ≤ seeded_at + k
      → let response = health_handler p now (pos k) (reseed c seeded_at seed d).0 in
        (response.code ≡ 200) × (response.body.ready ≡ true) × (response.body.status ≡ "ok")
  unfolding health_handler reseed_ready get_metadata
  health_handler-reseed p seeded_at now k seed d v op h l m =
      let (s, e, made) = reseed-ok c doc seeded_at seed d v op h in rw e (ground arith)

module _ {Stream : Type 0} where
  -- After a failed or skipped reseed whose error has a text, the service reports 503 and degraded,
  -- whatever the age of the seed, the clock and the limit.
  pub health_handler-record_reseed_failure :
      (p : Process) (now : ℕ) (max_age : ℤ) (message : String) (d : Drbg Stream)
      → (message == "") ≡ false
      → let response = health_handler p now max_age (record_reseed_failure (some message) d) in
        (response.code ≡ 503) × (response.body.ready ≡ false) × (response.body.status ≡ "degraded")
  unfolding health_handler reseed_ready get_metadata record_reseed_failure
  health_handler-record_reseed_failure p now max_age message d h = ground arith

abbrev pub is_among : String → List String → Bool
is_among x [] = false
is_among x (y ∷ ys) = if x == y then true else is_among x ys

abbrev pub are_distinct : List String → Bool
are_distinct [] = true
are_distinct (x ∷ xs) = not (is_among x xs) && are_distinct xs

module _ {Float : Type 0} where
  abbrev pub names : List (Series Float) → List String
  names [] = []
  names (x ∷ xs) = x.name ∷ names xs

  abbrev pub value_of : String → List (Series Float) → Option (Value Float)
  value_of name [] = none
  value_of name (x ∷ xs) = if x.name == name then some x.value else value_of name xs

module _ {Stream Float : Type 0} where
  -- No series is exposed twice, whatever the state of the service.
  pub metrics_handler-are_distinct :
      (p : Process) (now : ℕ) (max_age : ℤ) (d : Drbg Stream) (ws http : Budget)
      (activity : Peaks Float)
      → are_distinct (names (metrics_handler p now max_age d ws http activity)) ≡ true
  unfolding metrics_handler
  metrics_handler-are_distinct p now max_age d ws http activity = refl

  -- After any histories of the two budgets, the exposed numbers of active requests and of reserved
  -- bytes are those of the admissions that are not released.
  pub metrics_handler-run :
      (p : Process) (now : ℕ) (max_age : ℤ) (d : Drbg Stream) (activity : Peaks Float)
      → (ws_active ws_memory http_active http_memory word_memory : ℕ)
        (ws_events http_events : List Event)
      → let ws = run ws_admission (fresh_world ws_active ws_memory word_memory) ws_events in
        let http =
          run http_admission (fresh_world http_active http_memory word_memory) http_events in
        let exposed = metrics_handler p now max_age d ws.budget http.budget activity in
        (value_of "ws_connections_active" exposed ≡ some (count (open_count ws.tickets)))
        × (value_of "ws_memory_reserved_bytes" exposed ≡ some (count (held ws.tickets)))
        × (value_of "http_generation_requests_active" exposed
            ≡ some (count (open_count http.tickets)))
        × (value_of "http_generation_memory_reserved_bytes" exposed
            ≡ some (count (held http.tickets)))
  unfolding metrics_handler usage
  metrics_handler-run p now max_age d activity wa wm ha hm w ws_events http_events =
      let v = run-fresh_world-IsExact ws_admission wa wm w ws_events in
      let u = run-fresh_world-IsExact http_admission ha hm w http_events in
      (rw v.counted, rw v.summed, rw u.counted, rw u.summed)
