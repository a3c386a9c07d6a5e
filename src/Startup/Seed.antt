-- ===== src/Startup/Seed.antt =====
-- `NewMixer`, `NewCPUMixer` and the choice that `main` makes of them, and the reading of the seed. The
-- source's reads are a list, each with the bytes that it put into the rest of the buffer; a read of
-- none stands for an error.
use entropy_service.Prelude.{
  ℕ, ◌-◌, Bool, Option, none, some, List, [], ◌∷◌, ◌++◌, length, take, if◌then◌else◌, ◌==◌,
}
use entropy_service.Prelude.Outcome.{Outcome, ok, err}
use entropy_service.Rdrand.Mixer.{CpuError, unsupported, seed_or_random, read_mixed}

module _ {S : Type 0} (seed random : S → S × Outcome CpuError ℕ) where
  -- The instruction that a mixer draws its words from.
  abbrev pub Next : Type 0
  Next = S → S × Outcome CpuError ℕ

  unfoldable pub new_cpu_mixer : Next
  unfolding seed_or_random
  new_cpu_mixer s = seed_or_random seed random s

  unfoldable pub new_mixer : Bool → Outcome CpuError Next
  new_mixer available = if available then ok random else err unsupported

  abbrev pub mixed_reader : Outcome CpuError Next → Outcome CpuError (Option Next)
  mixed_reader (err e) = err e
  mixed_reader (ok next) = ok (some next)

  -- `-mix-cpu` goes before `-mix-rdrand`.
  unfoldable pub choose_mixer : Bool → Bool → Bool → Outcome CpuError (Option Next)
  unfolding new_cpu_mixer new_mixer
  choose_mixer mix_cpu mix_rdrand available =
      if mix_cpu
      then ok (some new_cpu_mixer)
      else if mix_rdrand
      then mixed_reader (new_mixer available)
      else ok none

  -- One read through the mixer, if there is one: the state, whether it has warned, and the bytes.
  abbrev pub read_through : Option Next → S → Bool → List ℕ → S × Bool × List ℕ
  read_through none s warned got = (s, warned, got)
  read_through (some next) s warned got =
      let (m, warned', report) = read_mixed next s warned got in (m.state, warned', m.bytes)

  abbrev pub and_rest : List ℕ → S × Option (List ℕ) → S × Option (List ℕ)
  and_rest bytes (s, none) = (s, none)
  and_rest bytes (s, some rest) = (s, some (bytes ++ rest))

  -- `io.ReadFull` of so many bytes: the reads go on until they are there.
  unfoldable pub read_full : Option Next → ℕ → List (List ℕ) → S → Bool → S × Option (List ℕ)
  unfolding read_mixed
  read_full mixer left [] s warned = (s, if left == 0 then some [] else none)
  read_full mixer left (got ∷ reads) s warned =
      let fits = take left got in
      let (s', warned', bytes) = read_through mixer s warned fits in
      let rest = read_full mixer (left - length fits) reads s' warned' in
      if left == 0
      then (s, some [])
      else if length got == 0
      then (s', none)
      else and_rest bytes rest
