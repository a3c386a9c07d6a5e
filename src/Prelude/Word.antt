-- ===== src/Prelude/Word.antt =====
-- Go's `uint64` (and the counters of sync/atomic): a number below 2 ^ 64, with its wrap-around.
use entropy_service.Prelude.{ℕ, ◌+◌, ◌%◌, ◌^◌, ◌<◌, ◌≡◌, arith}

abbrev pub u64_mod : ℕ
u64_mod = 2 ^ 64

-- The largest `int64`, 1<<63 - 1.
abbrev pub max_int64 : ℕ
max_int64 = 9223372036854775807

abbrev pub add64 : ℕ → ℕ → ℕ
add64 a b = (a + b) % u64_mod

pub add64-eq : (a b : ℕ) → a + b < u64_mod → add64 a b ≡ a + b
add64-eq a b h = omega arith
