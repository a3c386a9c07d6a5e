-- ===== src/Startup/Root.antt =====
-- `main` from its options to the root generator: every failure on the way ends the program.
use entropy_service.Prelude.{ℕ, Bool, false, Option, none, some, String, List}
use entropy_service.Prelude.Int.{scale_ℤ}
use entropy_service.Prelude.Outcome.{Outcome, ok, err}
use entropy_service.Config.Validate.{Config}
use entropy_service.Drbg.Algorithm.{Algorithm, Error, parse_algorithm, show}
use entropy_service.Drbg.Cipher.{Cipher}
use entropy_service.Drbg.Generator.{Process, Drbg, new_drbg_with_algorithm, set_metadata}
use entropy_service.Rdrand.Mixer.{CpuError}
use entropy_service.Source.Select.{SelectError, Selected, select_entropy_source}
use entropy_service.Startup.Seed.{choose_mixer, read_full}

-- What the program runs in: opening a path, what a selected source gives, and the CPU.
pub record Machine (World Reader E S : Type 0) : Type 0 where
  pub open_at : World → String → World × Outcome E Reader
  pub reads : Selected Reader → List (List ℕ)
  pub seed_instruction : S → S × Outcome CpuError ℕ
  pub random_instruction : S → S × Outcome CpuError ℕ
  pub rdrand_available : Bool

-- Each `log.Fatal`.
pub data Fatal (E : Type 0) : Type 0 where
  bad_algorithm no_generator : Error → Fatal E
  no_source : SelectError E → Fatal E
  no_mixer : CpuError → Fatal E
  no_seed : Fatal E

pub record Started (Reader Stream : Type 0) : Type 0 where
  pub process : Process
  pub reader : Selected Reader
  pub source : String
  pub seed : List ℕ
  pub root : Drbg Stream

module _ {Block Stream World Reader E S : Type 0} (c : Cipher Block Stream)
    (machine : Machine World Reader E S) (app_version : String) (cfg : Config) (now : ℕ) where
  abbrev pub StartResult : Type 0
  StartResult = Process × Outcome (Fatal E) (Started Reader Stream)

  -- `root.SetMetadata`, in nanoseconds and bits.
  abbrev pub described : Algorithm → String → Drbg Stream → Drbg Stream
  described algorithm source root =
      set_metadata app_version source (show algorithm) (scale_ℤ 1000000 cfg.reseed_ms)
        (scale_ℤ 8 cfg.reseed_size) root

  abbrev pub with_generator :
      Algorithm
      → Selected Reader
      → String
      → List ℕ
      → Process × Outcome Error (Drbg Stream)
      → StartResult
  with_generator algorithm reader source seed (p, err e) = (p, err (no_generator e))
  with_generator algorithm reader source seed (p, ok root) = (
    p,
    ok (record {
      process = p;
      reader = reader;
      source = source;
      seed = seed;
      root = described algorithm source root;
    }),
  )

  abbrev pub with_seed :
      Process → Algorithm → Selected Reader → String → S × Option (List ℕ) → StartResult
  with_seed p algorithm reader source (s, none) = (p, err no_seed)
  with_seed p algorithm reader source (s, some seed) =
      with_generator algorithm reader source seed (new_drbg_with_algorithm c p now seed algorithm)

  abbrev pub with_mixer :
      Process
      → S
      → Algorithm
      → Selected Reader
      → String
      → Outcome CpuError (Option (S → S × Outcome CpuError ℕ))
      → StartResult
  with_mixer p s algorithm reader source (err e) = (p, err (no_mixer e))
  with_mixer p s algorithm reader source (ok mixer) = with_seed p algorithm reader source (
      read_full machine.seed_instruction machine.random_instruction mixer 64 (machine.reads reader)
        s false)

  abbrev pub with_source :
      Process
      → S
      → Algorithm
      → World × Outcome (SelectError E) (Selected Reader × String)
      → StartResult
  with_source p s algorithm (w, err e) = (p, err (no_source e))
  with_source p s algorithm (w, ok (reader, source)) = with_mixer p s algorithm reader source (
      choose_mixer machine.seed_instruction machine.random_instruction cfg.mix_cpu cfg.mix_rdrand
        machine.rdrand_available)

  abbrev pub with_algorithm : Process → World → S → Outcome Error Algorithm → StartResult
  with_algorithm p w s (err e) = (p, err (bad_algorithm e))
  with_algorithm p w s (ok algorithm) =
      with_source p s algorithm
        (select_entropy_source machine.open_at w cfg.device_path cfg.require_device)

  unfoldable pub start_root : Process → World → S → StartResult
  unfolding parse_algorithm select_entropy_source choose_mixer read_full new_drbg_with_algorithm
      set_metadata
  start_root p w s = with_algorithm p w s (parse_algorithm cfg.drbg)
