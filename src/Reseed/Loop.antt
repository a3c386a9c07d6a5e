-- ===== src/Reseed/Loop.antt =====
-- `reseedLoop`. A tick of the ticker runs over the generators; what the source gives for each one
-- is an event: all `size` bytes, or an error. Cancellation is asked for before the read, after a
-- failed read and before the reseed, so each event says whether the context is canceled by then.
use entropy_service.Prelude.{
  ℕ, Bool, true, false, ◌||◌, some, String, List, [], ◌∷◌, map, if◌then◌else◌,
}
use entropy_service.Prelude.Int.{ℤ, pos, ltb_ℤ}
use entropy_service.Prelude.Outcome.{Outcome, ok, err}
use entropy_service.Metrics.{Metrics, add_reseeds}
use entropy_service.Drbg.Algorithm.{Error}
use entropy_service.Drbg.Cipher.{Cipher}
use entropy_service.Drbg.Generator.{Drbg, reseed, record_reseed_failure}

-- What one read of the source meets: canceled before it, its result and the time after it, and
-- whether the context is canceled when it is over.
pub record Attempt : Type 0 where
  pub canceled_before : Bool
  pub result : Outcome String (List ℕ)
  pub canceled_after : Bool
  pub now : ℕ

-- The loop over the generators of one tick: those generators, the metrics, and whether the whole
-- loop returns because of a cancellation.
pub record Round (Stream : Type 0) : Type 0 where
  pub generators : List (Drbg Stream)
  pub metrics : Metrics
  pub stopped : Bool

module _ {Stream : Type 0} where
  abbrev pub fail_all : String → List (Drbg Stream) → List (Drbg Stream)
  fail_all message = map (record_reseed_failure (some message))

  abbrev pub stop : Metrics → List (Drbg Stream) → Round Stream
  stop m ds = record { generators = ds; metrics = m; stopped = true }

  abbrev pub finish : Metrics → List (Drbg Stream) → Round Stream
  finish m ds = record { generators = ds; metrics = m; stopped = false }

  abbrev pub before : Drbg Stream → Round Stream → Round Stream
  before d rest = record rest { generators = d ∷ rest.generators }

-- `err.Error()` of the package's errors.
module _ {Block Stream : Type 0} (c : Cipher Block Stream) (text_of : Error → String) where
  -- `d.Reseed(seed)`: its error is recorded and the loop goes on; a success counts.
  abbrev pub after_reseed :
      (Metrics → Round Stream) → Metrics → Drbg Stream × Outcome Error (Unit {0}) → Round Stream
  after_reseed rest m (d, err e) = before (record_reseed_failure (some (text_of e)) d) (rest m)
  after_reseed rest m (d, ok _) = before d (rest (add_reseeds (pos 1) m))

  -- A failed read marks this generator and those behind it, and ends the tick; a canceled one
  -- returns from the loop and marks none.
  abbrev pub after_read :
      (Metrics → Round Stream)
      → Metrics
      → Drbg Stream
      → List (Drbg Stream)
      → Bool
      → ℕ
      → Outcome String (List ℕ)
      → Round Stream
  after_read rest m d ds true now result = stop m (d ∷ ds)
  after_read rest m d ds false now (err message) = finish m (fail_all message (d ∷ ds))
  after_read rest m d ds false now (ok seed) = after_reseed rest m (reseed c now seed d)

  -- One tick. The attempts are those of the generators, in order; a tick with fewer of them ends
  -- where they end.
  unfoldable pub tick : List Attempt → Metrics → List (Drbg Stream) → Round Stream
  tick attempts m [] = finish m []
  tick [] m (d ∷ ds) = finish m (d ∷ ds)
  tick (a ∷ attempts) m (d ∷ ds) =
      let rest = λ (m' : Metrics). tick attempts m' ds in
      if a.canceled_before
      then stop m (d ∷ ds)
      else after_read rest m d ds a.canceled_after a.now a.result

  abbrev pub next_tick : (Metrics → List (Drbg Stream) → Round Stream) → Round Stream → Round Stream
  next_tick again round =
      let rest = again round.metrics round.generators in if round.stopped then round else rest

  -- The ticks that come before the context is done.
  unfoldable pub ticks : List (List Attempt) → Metrics → List (Drbg Stream) → Round Stream
  unfolding tick
  ticks [] m ds = stop m ds
  ticks (attempts ∷ later) m ds = next_tick (ticks later) (tick attempts m ds)

  -- `reseedLoop`: a size out of range is recorded as a failure of every generator, and nothing is
  -- read. `size_error` is the text of that error.
  unfoldable pub reseed_loop :
      String → ℤ → List (List Attempt) → Metrics → List (Drbg Stream) → Round Stream
  unfolding ticks
  reseed_loop size_error size events m ds =
      if ltb_ℤ size (pos 32) || ltb_ℤ (pos 1048576) size
      then stop m (fail_all size_error ds)
      else ticks events m ds
