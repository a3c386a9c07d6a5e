-- ===== src/Images/Laws.antt =====
-- What the images show.
use entropy_service.Prelude.{
  ℕ, zero, suc, ◌+◌, ◌*◌, ◌/◌, ◌%◌, ◌==◌, ◌≤◌, ◌<◌, ◌≡◌, refl, ◌∙◌, Bool, true, ◌&&◌, Option, some,
  List, [], ◌∷◌, arith, length, get_elem?, get_or, set, replicate, length-set, length-replicate,
  if◌then◌else◌,
}
use entropy_service.Upload.Analyze.{ones_count8}
use entropy_service.Images.Pixels.{
  popcount, heat_color, Color, rows, paint_heat, heat_pixels, paint_opaque, opaque_pixels,
}
use entropy_service.Images.Loops.{pixels, rows-pixels}

-- The bytes at which the two counts agree.
agree_below : ℕ → Bool
agree_below zero = true
agree_below (suc b) = (popcount b == ones_count8 b) && agree_below b

agree_below-agrees : (n b : ℕ) → agree_below n ≡ true → b < n → popcount b ≡ ones_count8 b
unfolding agree_below
agree_below-agrees zero b h low = absurd (omega (arith, low))
agree_below-agrees (suc n) b h low = ground (arith, agree_below-agrees n b)

bytes_agree : agree_below 256 ≡ true
unfolding agree_below popcount ones_count8
bytes_agree = refl

get_elem?-set :
    (xs : List ℕ) (i j v : ℕ)
    → i < length xs
    → get_elem? (set xs i v) j ≡ (if j == i then some v else get_elem? xs j)
get_elem?-set [] i j v h = absurd (omega (arith, h))
get_elem?-set (x ∷ xs) zero zero v h = refl
get_elem?-set (x ∷ xs) zero (suc j) v h = ground arith
get_elem?-set (x ∷ xs) (suc i) zero v h = ground arith
get_elem?-set (x ∷ xs) (suc i) (suc j) v h =
    ground (arith, get_elem?-set xs i j v (omega (arith, h)))

module _ (paint : ℕ → ℕ → List ℕ → List ℕ) (start : List ℕ) (target : ℕ → Option ℕ) where
  -- Up to some pixel the bytes are the wanted ones, and behind it those of the start.
  record Painted (i : ℕ) (pix : List ℕ) : Type 0 where
    size : length pix ≡ length start
    painted : (j : ℕ) → j < 4 * i → get_elem? pix j ≡ target j
    untouched : (j : ℕ) → 4 * i ≤ j → get_elem? pix j ≡ get_elem? start j

  -- A body of the loops that paints one pixel.
  abbrev PaintsOne : Type 0
  PaintsOne =
      (i : ℕ) (pix : List ℕ)
      → 4 * i + 4 ≤ length start
      → Painted i pix
      → Painted (i + 1) (paint (4 * i) i pix)

  pixels-Painted :
      PaintsOne
      → (left i : ℕ) (pix : List ℕ) → 4 * (i + left) ≤ length start
      → Painted i pix
      → Painted (i + left) (pixels paint left i pix)
  unfolding pixels
  pixels-Painted one zero i pix h p = let stays : i + 0 ≡ i = omega arith in rw stays p
  pixels-Painted one (suc left) i pix h p =
      let moved : (i + 1) + left ≡ i + suc left = omega arith in
      rw (← moved) (
        pixels-Painted one left (i + 1) (paint (4 * i) i pix) (omega (arith, h))
          (one i pix (omega (arith, h)) p))

  rows-paint :
      PaintsOne
      → (width height : ℕ) → length start ≡ 4 * (width * height)
      → (j : ℕ) → j < length start
      → get_elem? (rows paint width height 0 0 start) j ≡ target j
  rows-paint one width height h j low =
      let flat : rows paint width height 0 0 start ≡ pixels paint (height * width) 0 start =
        rows-pixels paint width height 0 0 start (omega arith) in
      let same : height * width ≡ width * height = grind arith in
      let all = pixels-Painted one (height * width) 0 start (omega (arith, h, same)) (record {
        size = refl;
        painted = λ k l. absurd (omega (arith, l));
        untouched = λ k l. refl;
      }) in
      rw flat (all.painted j (omega (arith, h, same, low)))

abbrev pub channel : Color → ℕ → ℕ
channel c zero = c.red
channel c (suc zero) = c.green
channel c (suc (suc zero)) = c.blue
channel c (suc (suc (suc n))) = 255

abbrev heat_target : List ℕ → ℕ → Option ℕ
heat_target buf j = some (channel (heat_color (popcount (get_or buf (j / 4) 0))) (j % 4))

-- Four bytes are set at the offset of a pixel.
abbrev set_pixel : Color → ℕ → List ℕ → List ℕ
set_pixel c off pix =
    set (set (set (set pix off c.red) (off + 1) c.green) (off + 2) c.blue) (off + 3) 255

length-set_pixel : (c : Color) (off : ℕ) (pix : List ℕ) → length (set_pixel c off pix) ≡ length pix
length-set_pixel c off pix =
    length-set (set (set (set pix off c.red) (off + 1) c.green) (off + 2) c.blue) (off + 3) 255
    ∙ length-set (set (set pix off c.red) (off + 1) c.green) (off + 2) c.blue
    ∙ length-set (set pix off c.red) (off + 1) c.green
    ∙ length-set pix off c.red

get_elem?-set_pixel :
    (c : Color) (off j : ℕ) (pix : List ℕ)
    → off + 4 ≤ length pix
    → get_elem? (set_pixel c off pix) j ≡ (
        if j == off + 3
        then some 255
        else if j == off + 2
        then some c.blue
        else if j == off + 1
        then some c.green
        else if j == off
        then some c.red
        else get_elem? pix j)
get_elem?-set_pixel c off j pix h =
    let p1 = set pix off c.red in
    let p2 = set p1 (off + 1) c.green in
    let p3 = set p2 (off + 2) c.blue in
    let l1 = length-set pix off c.red in
    let l2 = length-set p1 (off + 1) c.green in
    let l3 = length-set p2 (off + 2) c.blue in
    rw (get_elem?-set p3 (off + 3) j 255 (omega (arith, h, l1, l2, l3))) (
      rw (get_elem?-set p2 (off + 2) j c.blue (omega (arith, h, l1, l2))) (
        rw (get_elem?-set p1 (off + 1) j c.green (omega (arith, h, l1)))
          (rw (get_elem?-set pix off j c.red (omega (arith, h))) refl)))

in_pixel :
    (buf : List ℕ) (i r j : ℕ)
    → j ≡ 4 * i + r
    → r < 4
    → heat_target buf j ≡ some (channel (heat_color (popcount (get_or buf i 0))) r)
in_pixel buf i r j h low =
    let number : j / 4 ≡ i = omega (arith, h, low) in
    let part : j % 4 ≡ r = omega (arith, h, low) in rw number (rw part refl)

paint_opaque-PaintsOne :
    (start : List ℕ)
    → PaintsOne paint_opaque start (λ j. if j % 4 == 3 then some 255 else get_elem? start j)
paint_opaque-PaintsOne start i pix fits p = record {
  size = omega (arith, length-set pix (4 * i + 3) 255, p.size);
  painted = λ j low.
      ground (arith, get_elem?-set pix (4 * i + 3) j 255, p.painted j, p.untouched j, p.size);
  untouched = λ j low.
      ground (arith, get_elem?-set pix (4 * i + 3) j 255, p.painted j, p.untouched j, p.size);
}

paint_heat-PaintsOne : (buf start : List ℕ) → PaintsOne (paint_heat buf) start (heat_target buf)
paint_heat-PaintsOne buf start i pix fits p =
    let c = heat_color (popcount (get_or buf i 0)) in
    record {
      size = length-set_pixel c (4 * i) pix ∙ p.size;
      painted = λ j low. ground (
        arith,
        get_elem?-set_pixel c (4 * i) j pix,
        p.painted j,
        p.size,
        fits,
        in_pixel buf i 0 j,
        in_pixel buf i 1 j,
        in_pixel buf i 2 j,
        in_pixel buf i 3 j,
      );
      untouched =
          λ j low. ground (arith, get_elem?-set_pixel c (4 * i) j pix, p.untouched j, p.size, fits);
    }

abbrev pub EachByte : List ℕ → Type 0
EachByte [] = Unit {0}
EachByte (b ∷ bytes) = (b < 256) × EachByte bytes

get_or-byte : (buf : List ℕ) (i : ℕ) → EachByte buf → get_or buf i 0 < 256
get_or-byte [] i h = omega arith
get_or-byte (b ∷ buf) zero h = h.0
get_or-byte (b ∷ buf) (suc i) h = get_or-byte buf i h.1

popcount-eq-ones_count8 : (b : ℕ) → b < 256 → popcount b ≡ ones_count8 b
popcount-eq-ones_count8 b h = agree_below-agrees 256 b bytes_agree h

-- Of as many bytes below 256 as the image has pixels, the heat map shows each one, in order, in the
-- colour of the number of its bits that are one, and opaque: this is the byte at every offset of
-- the pixels.
pub heat_pixels-maps :
    (width height : ℕ) (buf : List ℕ) (j : ℕ)
    → EachByte buf
    → j < 4 * (width * height)
    → get_elem? (heat_pixels width height buf) j
      ≡ some (channel (heat_color (ones_count8 (get_or buf (j / 4) 0))) (j % 4))
unfolding heat_pixels
heat_pixels-maps width height buf j bytes low =
    let blank : List ℕ = replicate (4 * (width * height)) 0 in
    let size : length blank ≡ 4 * (width * height) =
      length-replicate {A = ℕ} (4 * (width * height)) 0 in
    rw (← popcount-eq-ones_count8 (get_or buf (j / 4) 0) (get_or-byte buf (j / 4) bytes)) (
      rows-paint (paint_heat buf) blank (heat_target buf) (paint_heat-PaintsOne buf blank) width
        height size j (omega (arith, size, low)))

-- The random image is the bytes that were read, four for each pixel, with every pixel opaque.
pub opaque_pixels-opaque :
    (width height : ℕ) (pix : List ℕ) (j : ℕ)
    → length pix ≡ 4 * (width * height)
    → j < length pix
    → get_elem? (opaque_pixels width height pix) j
      ≡ (if j % 4 == 3 then some 255 else get_elem? pix j)
unfolding opaque_pixels
opaque_pixels-opaque width height pix j size low =
    rows-paint paint_opaque pix (λ k. if k % 4 == 3 then some 255 else get_elem? pix k)
      (paint_opaque-PaintsOne pix) width height size j low
