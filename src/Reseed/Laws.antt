-- ===== src/Reseed/Laws.antt =====
-- What the reseed loop does to the generators and to the service's count of reseeds.
use entropy_service.Prelude.{
  ℕ, ◌+◌, ◌%◌, ◌≤◌, ◌≡◌, refl, inl, inr, Bool, true, false, String, List, [], ◌∷◌, ◌++◌, map, arith,
  length, Bool-cases,
}
use entropy_service.Prelude.Int.{ℤ}
use entropy_service.Prelude.Word.{u64_mod, add64}
use entropy_service.Prelude.Outcome.{Outcome, ok, err}
use entropy_service.Metrics.{Metrics}
use entropy_service.Drbg.Algorithm.{Error}
use entropy_service.Drbg.Cipher.{Cipher, Documented}
use entropy_service.Drbg.Generator.{Drbg, reseed, record_reseed_failure, installed}
use entropy_service.Drbg.Invariant.{IsValid}
use entropy_service.Drbg.Reads.{reseed-ok}
use entropy_service.Reseed.Loop.{
  Attempt, Round, fail_all, finish, after_reseed, after_read, tick, ticks, reseed_loop,
}

module _ {Stream : Type 0} where
  -- The successful reseeds of these generators together.
  abbrev pub total : List (Drbg Stream) → ℕ
  total [] = 0
  total (d ∷ ds) = d.reseeds + total ds

  total-fail_all : (e : String) (ds : List (Drbg Stream)) → total (fail_all e ds) ≡ total ds
  unfolding record_reseed_failure
  total-fail_all e [] = refl
  total-fail_all e (d ∷ ds) = omega (arith, total-fail_all e ds)

  -- The service's count has moved as far as the generators' own counts, modulo 2 ^ 64.
  abbrev pub IsAccounted : Metrics → List (Drbg Stream) → Round Stream → Type 0
  IsAccounted m ds r =
      (r.metrics.rng_reseeds + total ds) % u64_mod ≡ (m.rng_reseeds + total r.generators) % u64_mod

  -- One failure more, and its error; all else as it was.
  abbrev pub failed : String → Drbg Stream → Drbg Stream
  failed message d = record d {
    reseed_failures = add64 d.reseed_failures 1;
    last_reseed_error = message;
  }

  -- A reseed counts itself when it succeeds, and changes nothing when it does not.
  abbrev Counts : Drbg Stream → Drbg Stream × Outcome Error (Unit {0}) → Type 0
  Counts d (d', ok _) = d'.reseeds ≡ add64 d.reseeds 1
  Counts d (d', err e) = d' ≡ d

module _ {Block Stream : Type 0} (c : Cipher Block Stream) (text_of : Error → String) where
  reseed-Counts : (now : ℕ) (seed : List ℕ) (d : Drbg Stream) → Counts d (reseed c now seed d)
  unfolding reseed
  reseed-Counts now seed d = ground arith

  after_reseed-IsAccounted :
      (rest : Metrics → Round Stream) (m : Metrics) (d : Drbg Stream) (ds : List (Drbg Stream))
      → (r : Drbg Stream × Outcome Error (Unit {0})) → Counts d r
      → ((m' : Metrics) → IsAccounted m' ds (rest m'))
      → IsAccounted m (d ∷ ds) (after_reseed c text_of rest m r)
  unfolding record_reseed_failure
  after_reseed-IsAccounted rest m d ds (d', err e) h k = ground (arith, k m)
  after_reseed-IsAccounted rest m d ds (d', ok _) h k =
      ground (arith, k (record m { rng_reseeds = add64 m.rng_reseeds 1 }))

  after_read-IsAccounted :
      (rest : Metrics → Round Stream) (m : Metrics) (d : Drbg Stream) (ds : List (Drbg Stream))
      → (canceled : Bool) (now : ℕ) (result : Outcome String (List ℕ))
      → ((m' : Metrics) → IsAccounted m' ds (rest m'))
      → IsAccounted m (d ∷ ds) (after_read c text_of rest m d ds canceled now result)
  after_read-IsAccounted rest m d ds true now result k = refl
  after_read-IsAccounted rest m d ds false now (err e) k = omega (arith, total-fail_all e (d ∷ ds))
  after_read-IsAccounted rest m d ds false now (ok seed) k =
      after_reseed-IsAccounted rest m d ds (reseed c now seed d) (reseed-Counts now seed d) k

  tick-IsAccounted :
      (attempts : List Attempt) (m : Metrics) (ds : List (Drbg Stream))
      → IsAccounted m ds (tick c text_of attempts m ds)
  unfolding tick
  tick-IsAccounted [] m [] = refl
  tick-IsAccounted (a ∷ attempts) m [] = refl
  tick-IsAccounted [] m (d ∷ ds) = refl
  tick-IsAccounted (a ∷ attempts) m (d ∷ ds) = elim (Bool-cases a.canceled_before) [
    | inl gone ↦ rw gone
    | inr live ↦ rw live (
        after_read-IsAccounted (λ m'. tick c text_of attempts m' ds) m d ds a.canceled_after a.now
          a.result (λ m'. tick-IsAccounted attempts m' ds))
  ]

  ticks-IsAccounted :
      (events : List (List Attempt)) (m : Metrics) (ds : List (Drbg Stream))
      → IsAccounted m ds (ticks c text_of events m ds)
  unfolding ticks
  ticks-IsAccounted [] m ds = refl
  ticks-IsAccounted (attempts ∷ later) m ds =
      let round = tick c text_of attempts m ds in
      ground (
        arith,
        tick-IsAccounted attempts m ds,
        ticks-IsAccounted later round.metrics round.generators,
      )

  -- Whatever the source, the clock and cancellation do, the service's count of reseeds moves by the
  -- number of reseeds that the generators themselves counted, modulo 2 ^ 64.
  pub reseed_loop-IsAccounted :
      (size_error : String) (size : ℤ) (events : List (List Attempt))
      → (m : Metrics) (ds : List (Drbg Stream))
      → IsAccounted m ds (reseed_loop c text_of size_error size events m ds)
  unfolding reseed_loop
  reseed_loop-IsAccounted size_error size events m ds =
      ground (arith, total-fail_all size_error ds, ticks-IsAccounted events m ds)

module _ {Block Stream : Type 0} (c : Cipher Block Stream) (doc : Documented c)
    (text_of : Error → String) where
  -- A tick over one valid, open generator, with a read of at least 32 bytes and no cancellation:
  -- the generator is reseeded from its old key and those bytes, its last error is cleared, and
  -- the service counts one reseed more.
  pub tick-reseeds :
      (now : ℕ) (seed : List ℕ) (m : Metrics) (d : Drbg Stream)
      → IsValid d
      → d.closed ≡ false
      → 32 ≤ length seed
      → (s : Stream) × (tick c text_of
            (record { canceled_before = false; result = ok seed; canceled_after = false; now = now }
              ∷ [])
            m
            (d ∷ [])
          ≡ finish
              (record m { rng_reseeds = add64 m.rng_reseeds 1 })
              (installed c d (c.sha512 (d.key ++ seed)) now s ∷ []))
  unfolding tick
  tick-reseeds now seed m d v op h =
      let (s, e, made) = reseed-ok c doc now seed d v op h in (s, rw e)

  -- A tick whose first read fails while nothing is canceled: every generator counts one failure and
  -- holds the error, and its key, its stream, its budget and its epoch stay as they were.
  pub tick-fails :
      (message : String) (now : ℕ) (attempts : List Attempt) (m : Metrics)
      → (d : Drbg Stream) (ds : List (Drbg Stream))
      → tick c text_of
          (record {
            canceled_before = false;
            result = err message;
            canceled_after = false;
            now = now;
          }
            ∷ attempts)
          m
          (d ∷ ds)
        ≡ finish m (failed message d ∷ map (failed message) ds)
  unfolding tick record_reseed_failure
  tick-fails message now attempts m d ds = refl
