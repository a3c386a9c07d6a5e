-- ===== src/Drbg/Instances.antt =====
-- The count of generator instances over any history of constructions and closings.
use entropy_service.Prelude.{
  ℕ, zero, suc, ◌+◌, ◌≤◌, ◌≡◌, refl, ◌⊎◌, true, false, if◌then◌else◌, List, [], ◌∷◌, arith,
}
use entropy_service.Prelude.Int.{pos, ◌+ℤ◌, ◌-ℤ◌, ◌≤ℤ◌}
use entropy_service.Prelude.Outcome.{Outcome, ok, err}
use entropy_service.Drbg.Algorithm.{Algorithm, Error}
use entropy_service.Drbg.Cipher.{Cipher}
use entropy_service.Drbg.Generator.{
  Process, Drbg, count_instance, install, new_drbg_with_algorithm, close,
}

-- The process, with every generator constructed so far, the newest first.
pub record World (Stream : Type 0) : Type 0 where
  pub process : Process
  pub generators : List (Drbg Stream)

pub data Event : Type 0 where
  construct : ℕ → List ℕ → Algorithm → Event
  shut : ℕ → Event

module _ {Stream : Type 0} where
  pub close_at : ℕ → Process → List (Drbg Stream) → Process × List (Drbg Stream)
  close_at i p [] = (p, [])
  close_at zero p (d ∷ ds) = let (p', d') = close p d in (p', d' ∷ ds)
  close_at (suc i) p (d ∷ ds) = let (p', ds') = close_at i p ds in (p', d ∷ ds')

  abbrev pub keep : List (Drbg Stream) → Process × Outcome Error (Drbg Stream) → World Stream
  keep ds (p, ok d) = record { process = p; generators = d ∷ ds }
  keep ds (p, err e) = record { process = p; generators = ds }

  -- How many generators are open, and that each one counts exactly while it is open.
  abbrev pub open_count : List (Drbg Stream) → ℕ
  open_count [] = 0
  open_count (d ∷ ds) = (if d.closed then 0 else 1) + open_count ds

  abbrev pub EachCounted : List (Drbg Stream) → Type 0
  EachCounted [] = Unit {0}
  EachCounted (d ∷ ds) =
      (((d.closed ≡ false) × (d.counted ≡ true)) ⊎ (d.closed ≡ true)) × EachCounted ds

  pub record IsExact (w : World Stream) : Type 0 where
    pub each : EachCounted w.generators
    pub exact : w.process.active_drbg ≡ pos (open_count w.generators)
    pub peak : w.process.active_drbg ≤ℤ w.process.peak_drbg

  close-counts :
      (p : Process) (d : Drbg Stream) (k : ℕ)
      → ((d.closed ≡ false) × (d.counted ≡ true)) ⊎ (d.closed ≡ true)
      → p.active_drbg ≡ pos (k + (if d.closed then 0 else 1))
      → ((close p d).0.active_drbg ≡ pos k)
        × ((close p d).0.peak_drbg ≡ p.peak_drbg)
        × ((close p d).1.closed ≡ true)
  unfolding close ◌-ℤ◌
  close-counts p d k h e = ground arith

  record Closed (p : Process) (k : ℕ) (p' : Process) (ds' : List (Drbg Stream)) : Type 0 where
    each : EachCounted ds'
    moved : p'.active_drbg ≡ pos (k + open_count ds')
    peak : p'.peak_drbg ≡ p.peak_drbg

  close_at-Closed :
      (i k : ℕ) (p : Process) (ds : List (Drbg Stream))
      → EachCounted ds
      → p.active_drbg ≡ pos (k + open_count ds)
      → (Closed p k (close_at i p ds).0 (close_at i p ds).1)
        × (open_count (close_at i p ds).1 ≤ open_count ds)
  unfolding close_at
  close_at-Closed i k p [] h e = (record { each = h; moved = e; peak = refl }, omega arith)
  close_at-Closed zero k p (d ∷ ds) h e = ground (arith, close-counts p d (k + open_count ds) h.0)
  close_at-Closed (suc i) k p (d ∷ ds) h e =
      ground (arith, close_at-Closed i (k + (if d.closed then 0 else 1)) p ds h.1)

  shut-IsExact :
      (w : World Stream) (i : ℕ)
      → IsExact w
      → IsExact (record {
        process = (close_at i w.process w.generators).0;
        generators = (close_at i w.process w.generators).1;
      })
  shut-IsExact w i v = ground (arith, close_at-Closed i 0 w.process w.generators)

module _ {Block Stream : Type 0} (c : Cipher Block Stream) where
  pub step : World Stream → Event → World Stream
  step w (construct now seed a) = keep w.generators (new_drbg_with_algorithm c w.process now seed a)
  step w (shut i) =
      let (p, ds) = close_at i w.process w.generators in record { process = p; generators = ds }

  pub run : World Stream → List Event → World Stream
  run w [] = w
  run w (e ∷ es) = run (step w e) es

  construct-IsExact :
      (w : World Stream) (now : ℕ) (seed : List ℕ) (a : Algorithm)
      → IsExact w
      → IsExact (keep w.generators (new_drbg_with_algorithm c w.process now seed a))
  unfolding new_drbg_with_algorithm install count_instance ◌+ℤ◌
  construct-IsExact w now seed a v = ground arith

  step-IsExact : (w : World Stream) (e : Event) → IsExact w → IsExact (step w e)
  unfolding step
  step-IsExact w (construct now seed a) v = construct-IsExact w now seed a v
  step-IsExact w (shut i) v = shut-IsExact w i v

  -- From a state whose counts are exact, however generators are constructed and closed, and
  -- however often each is closed, the active count is the number of generators that are open, and
  -- the peak is at least as high.
  pub run-IsExact : (es : List Event) (w : World Stream) → IsExact w → IsExact (run w es)
  unfolding run
  run-IsExact [] w v = v
  run-IsExact (e ∷ es) w v = run-IsExact es (step w e) (step-IsExact w e v)
