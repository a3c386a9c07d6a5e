-- ===== src/Client/Stats/Sums.antt =====
-- The sums and counts of a stream, and that the tester holds them as long as they fit its numbers.
use entropy_service.Prelude.{
  ℕ, ◌^◌, ◌<◌, ◌≤◌, ◌+◌, ◌-◌, ◌*◌, ◌≡◌, refl, Option, none, some, List, [], ◌∷◌, arith, length,
}
use native.Mathlib.Nat.{mul-le-mul_right}
use entropy_service.Prelude.Word.{u64_mod, add64-eq}
use entropy_service.Prelude.Float.{exact_below, add_float-eq}
use entropy_service.Upload.Analyze.{ones_count8}
use entropy_service.Upload.Chunks.{count, ones_of}
use entropy_service.Upload.Laws.{ones_of-le}
use entropy_service.Client.Stats.Tester.{
  Tester, new_tester, add_byte, add_bytes, with_product, with_pair,
}

abbrev pub AreBytes : List ℕ → Type 0
AreBytes [] = Unit {0}
AreBytes (b ∷ bytes) = (b < 256) × AreBytes bytes

pub sum_of : List ℕ → ℕ
sum_of [] = 0
sum_of (v ∷ bytes) = v + sum_of bytes

pub squares_of : List ℕ → ℕ
squares_of [] = 0
squares_of (v ∷ bytes) = v * v + squares_of bytes

abbrev pub product_with : Option ℕ → ℕ → ℕ
product_with none x = 0
product_with (some p) x = p * x

abbrev pub pair_with : Option ℕ → ℕ
pair_with none = 0
pair_with (some p) = 1

-- Σ x_i · x_{i+1}, after a byte before them, if there is one.
pub products_after : Option ℕ → List ℕ → ℕ
products_after p [] = 0
products_after p (v ∷ bytes) = product_with p v + products_after (some v) bytes

pub pairs_after : Option ℕ → List ℕ → ℕ
pairs_after p [] = 0
pairs_after p (v ∷ bytes) = pair_with p + pairs_after (some v) bytes

-- There is room for the statistics of `bytes` on top of those of t.
pub record Fits (t : Tester) (bytes : List ℕ) : Type 0 where
  pub hist : (w : ℕ) → t.hist w + count w bytes < u64_mod
  pub bit_ones : t.bit_ones + ones_of bytes < u64_mod
  pub sum : t.sum + sum_of bytes < exact_below
  pub sum_sq : t.sum_sq + squares_of bytes < exact_below
  pub sum_prod : t.sum_prod + products_after t.prev bytes < exact_below
  pub pairs : t.pairs + pairs_after t.prev bytes < u64_mod

-- The statistics of `bytes` on top of those of t.
pub record Extends (t : Tester) (bytes : List ℕ) (t' : Tester) : Type 0 where
  pub hist : (w : ℕ) → t'.hist w ≡ t.hist w + count w bytes
  pub bit_ones : t'.bit_ones ≡ t.bit_ones + ones_of bytes
  pub sum : t'.sum ≡ t.sum + sum_of bytes
  pub sum_sq : t'.sum_sq ≡ t.sum_sq + squares_of bytes
  pub sum_prod : t'.sum_prod ≡ t.sum_prod + products_after t.prev bytes
  pub pairs : t'.pairs ≡ t.pairs + pairs_after t.prev bytes

with_product-eq :
    (p : Option ℕ) (v sum : ℕ)
    → sum + product_with p v < exact_below
    → with_product p v sum ≡ sum + product_with p v
with_product-eq none v sum h = omega arith
with_product-eq (some p) v sum h = add_float-eq sum (p * v) h

with_pair-eq :
    (p : Option ℕ) (pairs : ℕ)
    → pairs + pair_with p < u64_mod
    → with_pair p pairs ≡ pairs + pair_with p
with_pair-eq none pairs h = omega arith
with_pair-eq (some p) pairs h = add64-eq pairs 1 h

-- One byte, and room for the rest.
add_byte-Fits :
    (v : ℕ) (bytes : List ℕ) (t : Tester)
    → Fits t (v ∷ bytes)
    → Fits (add_byte v t) bytes
      × ((u : Tester) → Extends (add_byte v t) bytes u → Extends t (v ∷ bytes) u)
unfolding add_byte count ones_of sum_of squares_of products_after pairs_after
add_byte-Fits v bytes t f =
    let ones = add64-eq t.bit_ones (ones_count8 v) (omega (arith, f.bit_ones)) in
    let sum = add_float-eq t.sum v (omega (arith, f.sum)) in
    let sum_sq = add_float-eq t.sum_sq (v * v) (omega (arith, f.sum_sq)) in
    let prod = with_product-eq t.prev v t.sum_prod (omega (arith, f.sum_prod)) in
    let pairs = with_pair-eq t.prev t.pairs (omega (arith, f.pairs)) in
    (
      record {
        hist = λ w. ground (arith, f.hist w);
        bit_ones = omega (arith, ones, f.bit_ones);
        sum = omega (arith, sum, f.sum);
        sum_sq = omega (arith, sum_sq, f.sum_sq);
        sum_prod = omega (arith, prod, f.sum_prod);
        pairs = omega (arith, pairs, f.pairs);
      },
      λ u e. record {
        hist = λ w. ground (arith, f.hist w, e.hist w);
        bit_ones = omega (arith, ones, e.bit_ones);
        sum = omega (arith, sum, e.sum);
        sum_sq = omega (arith, sum_sq, e.sum_sq);
        sum_prod = omega (arith, prod, e.sum_prod);
        pairs = omega (arith, pairs, e.pairs);
      },
    )

pub add_bytes-Extends :
    (bytes : List ℕ) (t : Tester) → Fits t bytes → Extends t bytes (add_bytes bytes t)
unfolding add_bytes count ones_of sum_of squares_of products_after pairs_after
add_bytes-Extends [] t f = omega arith
add_bytes-Extends (v ∷ bytes) t f =
    let (rest, extend) = add_byte-Fits v bytes t f in
    extend (add_bytes bytes (add_byte v t)) (add_bytes-Extends bytes (add_byte v t) rest)

product-le : (a b : ℕ) → a < 256 → b < 256 → a * b ≤ 65025
product-le a b h k =
    let h' : a ≤ 255 = omega (arith, h) in omega (arith, k, mul-le-mul_right {m = a} {n = 255} b h')

sum_of-le : (bytes : List ℕ) → AreBytes bytes → sum_of bytes ≤ 255 * length bytes
unfolding sum_of
sum_of-le [] h = omega arith
sum_of-le (v ∷ bytes) (k, h) = omega (arith, k, sum_of-le bytes h)

squares_of-le : (bytes : List ℕ) → AreBytes bytes → squares_of bytes ≤ 65025 * length bytes
unfolding squares_of
squares_of-le [] h = omega arith
squares_of-le (v ∷ bytes) (k, h) = omega (arith, product-le v v k k, squares_of-le bytes h)

products_after-le :
    (p : ℕ) (bytes : List ℕ)
    → p < 256
    → AreBytes bytes
    → products_after (some p) bytes ≤ 65025 * length bytes
unfolding products_after
products_after-le p [] l h = omega arith
products_after-le p (v ∷ bytes) l (k, h) =
    omega (arith, product-le p v l k, products_after-le v bytes k h)

all_products-le :
    (bytes : List ℕ) → AreBytes bytes → products_after none bytes ≤ 65025 * length bytes
unfolding products_after
all_products-le [] h = omega arith
all_products-le (v ∷ bytes) (k, h) = omega (arith, products_after-le v bytes k h)

count-le : (w : ℕ) (bytes : List ℕ) → count w bytes ≤ length bytes
unfolding count
count-le w [] = omega arith
count-le w (v ∷ bytes) = ground (arith, count-le w bytes)

pairs_after-some : (p : ℕ) (bytes : List ℕ) → pairs_after (some p) bytes ≡ length bytes
unfolding pairs_after
pairs_after-some p [] = refl
pairs_after-some p (v ∷ bytes) = omega (arith, pairs_after-some v bytes)

pub pairs_after-none : (bytes : List ℕ) → pairs_after none bytes ≡ length bytes - 1
unfolding pairs_after
pairs_after-none [] = omega arith
pairs_after-none (v ∷ bytes) = omega (arith, pairs_after-some v bytes)

-- Any 2 ^ 37 bytes fit a new tester.
pub new_tester-Fits :
    (bytes : List ℕ) → AreBytes bytes → length bytes ≤ 2 ^ 37 → Fits new_tester bytes
new_tester-Fits bytes h small = record {
  hist = λ w. omega (arith, small, count-le w bytes);
  bit_ones = omega (arith, small, ones_of-le bytes);
  sum = omega (arith, small, sum_of-le bytes h);
  sum_sq = omega (arith, small, squares_of-le bytes h);
  sum_prod = omega (arith, small, all_products-le bytes h);
  pairs = omega (arith, small, pairs_after-none bytes);
}
