-- ===== src/Images/Loops.antt =====
-- The two nested loops visit the pixels once each, in order.
use entropy_service.Prelude.{ℕ, zero, suc, ◌+◌, ◌*◌, ◌≡◌, refl, ap, sym, ◌∙◌, List, arith}
use entropy_service.Images.Pixels.{columns, rows}

module _ (paint : ℕ → ℕ → List ℕ → List ℕ) where
  -- One loop over `left` pixels from number `i`.
  unfoldable pub pixels : ℕ → ℕ → List ℕ → List ℕ
  pixels zero i pix = pix
  pixels (suc left) i pix = pixels left (i + 1) (paint (4 * i) i pix)

  pixels-add : (m n i : ℕ) (pix : List ℕ) → pixels (m + n) i pix ≡ pixels n (i + m) (pixels m i pix)
  unfolding pixels
  pixels-add zero n i pix =
      let none_more : 0 + n ≡ n = omega arith in
      let stays : i + 0 ≡ i = omega arith in rw none_more (rw stays refl)
  pixels-add (suc m) n i pix =
      let one_more : suc m + n ≡ suc (m + n) = omega arith in
      let moved : (i + 1) + m ≡ i + suc m = omega arith in
      rw one_more (rw (← moved) (pixels-add m n (i + 1) (paint (4 * i) i pix)))

  columns-pixels :
      (left x row i : ℕ) (pix : List ℕ)
      → row + x * 4 ≡ 4 * i
      → columns paint left x row i pix ≡ (i + left, pixels left i pix)
  unfolding columns pixels
  columns-pixels zero x row i pix h = ap (λ (k : ℕ). (k, pix)) (omega arith)
  columns-pixels (suc left) x row i pix h =
      let moved : (i + 1) + left ≡ i + suc left = omega arith in
      rw h (
        rw (← moved)
          (columns-pixels left (x + 1) row (i + 1) (paint (4 * i) i pix) (omega (arith, h))))

  pub rows-pixels :
      (width left y i : ℕ) (pix : List ℕ)
      → i ≡ y * width
      → rows paint width left y i pix ≡ pixels (left * width) i pix
  unfolding rows pixels
  rows-pixels width zero y i pix h =
      let none_left : 0 * width ≡ 0 = omega arith in rw none_left refl
  rows-pixels width (suc left) y i pix h =
      let at_row : y * (width * 4) + 0 * 4 ≡ 4 * i = grind (arith, h) in
      let all : suc left * width ≡ width + left * width = grind arith in
      rw (columns-pixels width 0 (y * (width * 4)) i pix at_row) (
        rows-pixels width left (y + 1) (i + width) (pixels width i pix) (grind (arith, h))
        ∙ sym (pixels-add width (left * width) i pix)
        ∙ ap (λ (k : ℕ). pixels k i pix) (sym all))
