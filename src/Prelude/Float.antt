-- ===== src/Prelude/Float.antt =====
-- Whole numbers as `float64` holds them: a sum is rounded to 53 binary digits, to even at a tie. They
-- are meant for sums far below the largest float64, about 2 ^ 1024.
use entropy_service.Prelude.{
  ℕ, zero, suc, ◌+◌, ◌*◌, ◌/◌, ◌%◌, ◌^◌, ◌<◌, ◌≡◌, true, false, ◌||◌, ◌&&◌, ltb, ◌==◌, arith,
  if◌then◌else◌,
}

abbrev pub exact_below : ℕ
exact_below = 2 ^ 53

-- The unit of the last digit, at most `fuel` doublings above u.
unfoldable pub last_digit : ℕ → ℕ → ℕ → ℕ
last_digit zero n u = u
last_digit (suc fuel) n u = elim (ltb n (exact_below * u)) [
  | true ↦ u
  | false ↦ last_digit fuel n (2 * u)
]

-- n in units of u, rounded.
abbrev pub round_at : ℕ → ℕ → ℕ
round_at n u =
    let q = n / u in
    let r = n % u in if ltb (2 * r) u || (2 * r == u && q % 2 == 0) then q * u else (q + 1) * u

unfoldable pub round_whole : ℕ → ℕ
unfolding last_digit
round_whole n = round_at n (last_digit 971 n 1)

-- The sum of two whole numbers.
unfoldable pub add_float : ℕ → ℕ → ℕ
unfolding round_whole
add_float a b = round_whole (a + b)

last_digit-small : (fuel n : ℕ) → n < exact_below → last_digit (suc fuel) n 1 ≡ 1
unfolding last_digit
last_digit-small fuel n h = ground (arith, h)

round_whole-eq : (n : ℕ) → n < exact_below → round_whole n ≡ n
unfolding round_whole
round_whole-eq n h = rw (last_digit-small 970 n h) (ground arith)

pub add_float-eq : (a b : ℕ) → a + b < exact_below → add_float a b ≡ a + b
unfolding add_float
add_float-eq a b h = round_whole-eq (a + b) h
