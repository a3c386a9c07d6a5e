-- ===== src/Rdrand/Mixer.antt =====
-- rdrand.go and seed.go. The CPU instructions (with their bounded retries, in assembly) and the
-- wrapped reader are parameters; `S` is what their calls change. Bytes are numbers below 256.
use Prim.Native.Nat.{bit_xor}
use entropy_service.Prelude.{
  ℕ, zero, suc, ◌/◌, ◌%◌, Bool, true, false, Option, none, some, List, [], ◌∷◌, ◌++◌, length, take,
  drop,
}
use entropy_service.Prelude.Outcome.{Outcome, ok, err}

pub data CpuError : Type 0 where
  unsupported unavailable seed_unsupported seed_unavailable : CpuError
  both : CpuError → CpuError → CpuError

-- `Uint64` and `SeedUint64`: is the instruction there, and what did it give, a word and success.
unfoldable pub uint64 : Bool → ℕ × Bool → Outcome CpuError ℕ
uint64 false sample = err unsupported
uint64 true (value, false) = err unavailable
uint64 true (value, true) = ok value

unfoldable pub seed_uint64 : Bool → ℕ × Bool → Outcome CpuError ℕ
seed_uint64 false sample = err seed_unsupported
seed_uint64 true (value, false) = err seed_unavailable
seed_uint64 true (value, true) = ok value

module _ {S : Type 0} where
  abbrev pub after_random : CpuError → S × Outcome CpuError ℕ → S × Outcome CpuError ℕ
  after_random seed_error (s, ok value) = (s, ok value)
  after_random seed_error (s, err e) = (s, err (both seed_error e))

  abbrev pub after_seed :
      (S → S × Outcome CpuError ℕ) → S × Outcome CpuError ℕ → S × Outcome CpuError ℕ
  after_seed random (s, ok value) = (s, ok value)
  after_seed random (s, err e) = after_random e (random s)

  -- `seedOrRandom`.
  unfoldable pub seed_or_random :
      (S → S × Outcome CpuError ℕ) → (S → S × Outcome CpuError ℕ) → S → S × Outcome CpuError ℕ
  seed_or_random seed random s = after_seed random (seed s)

-- The inner loop: up to eight bytes, each XORed with the low byte of the word, which is shifted.
unfoldable pub xor_word : ℕ → ℕ → List ℕ → List ℕ
xor_word zero value bytes = bytes
xor_word (suc k) value [] = []
xor_word (suc k) value (b ∷ bytes) = bit_xor b (value % 256) ∷ xor_word k (value / 256) bytes

-- What the outer loop leaves: the state, the bytes and the failure that stopped it, if one did.
pub record Mixed (S : Type 0) : Type 0 where
  pub state : S
  pub bytes : List ℕ
  pub failure : Option CpuError

module _ {S : Type 0} (next : S → S × Outcome CpuError ℕ) where
  -- The outer loop, over the bytes that the source gave; each round takes eight. The fuel is a
  -- bound on the rounds, and the number of bytes is enough (`mix-draws`).
  abbrev pub mix_rest : (S → List ℕ → Mixed S) → List ℕ → S × Outcome CpuError ℕ → Mixed S
  mix_rest again bytes (s, err e) = record { state = s; bytes = bytes; failure = some e }
  mix_rest again bytes (s, ok value) =
      let rest = again s (drop 8 bytes) in
      record rest { bytes = xor_word 8 value (take 8 bytes) ++ rest.bytes }

  unfoldable pub mix : ℕ → S → List ℕ → Mixed S
  mix fuel s [] = record { state = s; bytes = []; failure = none }
  mix zero s (b ∷ bytes) = record { state = s; bytes = b ∷ bytes; failure = none }
  mix (suc fuel) s (b ∷ bytes) = mix_rest (mix fuel) (b ∷ bytes) (next s)

  abbrev pub reported : Option CpuError → Bool → Bool × Option CpuError
  reported none warned = (warned, none)
  reported (some e) true = (true, none)
  reported (some e) false = (true, some e)

  -- `Mixer.Read`, of a source that put the bytes `got` into the buffer: the bytes mixed, whether
  -- the warning has been given (`warnOnce`), and the failure that is reported now.
  unfoldable pub read_mixed : S → Bool → List ℕ → Mixed S × Bool × Option CpuError
  unfolding mix
  read_mixed s warned got =
      let m = mix (length got) s got in
      let (warned', report) = reported m.failure warned in (m, warned', report)
