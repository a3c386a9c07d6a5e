-- ===== src/Startup/Laws.antt =====
-- What `main` has when its root generator stands, and that a failure leaves no generator behind.
use entropy_service.Prelude.{ℕ, ◌≡◌, false, Option, none, some, String, List, length}
use entropy_service.Prelude.Int.{pos, ◌+ℤ◌}
use entropy_service.Prelude.Outcome.{Outcome, ok, err}
use entropy_service.Config.Validate.{Config}
use entropy_service.Drbg.Algorithm.{Algorithm, Error}
use entropy_service.Drbg.Cipher.{Cipher, Documented}
use entropy_service.Drbg.Generator.{Process, Drbg, key_of}
use entropy_service.Drbg.Invariant.{IsValid}
use entropy_service.Rdrand.Mixer.{CpuError}
use entropy_service.Startup.Root.{Machine, StartResult}

module _ {S : Type 0} (seed random : S → S × Outcome CpuError ℕ) where
  -- A seed that was read has so many bytes.
  abbrev IsFull : ℕ → S × Option (List ℕ) → Type 0
  IsFull n (s, none) = Unit {0}
  IsFull n (s, some bytes) = length bytes ≡ n

module _ {Block Stream World Reader E S : Type 0} (c : Cipher Block Stream) (doc : Documented c)
    (machine : Machine World Reader E S) (app_version : String) (cfg : Config) (now : ℕ) where
  -- A root that is ready: valid and open, of the configured algorithm, keyed from a seed of 64
  -- bytes, named by its source and counted once.
  abbrev pub IsReady : Process → StartResult c machine app_version cfg now → Type 0
  IsReady p (p', err e) = p' ≡ p
  IsReady p (p', ok st) =
      IsValid st.root
      × (st.root.closed ≡ false)
      × (st.root.algorithm ≡ cfg.drbg)
      × (length st.seed ≡ 64)
      × (st.root.key ≡ key_of (c.sha512 st.seed))
      × (st.root.source ≡ st.source)
      × (st.root.version ≡ app_version)
      × (st.root.last_reseed_error ≡ "")
      × (st.root.reseeded ≡ now)
      × (st.process ≡ p')
      × (p'.active_drbg ≡ p.active_drbg +ℤ pos 1)

  -- A new generator of a seed.
  abbrev IsMade : Process → List ℕ → Algorithm → Process × Outcome Error (Drbg Stream) → Type 0
  IsMade p seed a (p', err e) = p' ≡ p
  IsMade p seed a (p', ok d) =
      IsValid d
      × (d.closed ≡ false)
      × (d.algorithm ≡ a)
      × (d.key ≡ key_of (c.sha512 seed))
      × (d.last_reseed_error ≡ "")
      × (d.reseeded ≡ now)
      × (p'.active_drbg ≡ p.active_drbg +ℤ pos 1)
