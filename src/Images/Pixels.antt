-- ===== src/Images/Pixels.antt =====
-- `popcount`, `heatColor` and the pixel loops of `entropyHeatmapHandler` and `randomImageHandler`.
-- Bytes are numbers below 256. The pixels are one list, four bytes each, and a row takes
-- `width * 4` of them (`img.Stride`).
use Prim.Native.Nat.{bit_and}
use entropy_service.Prelude.{ℕ, zero, suc, ◌+◌, ◌-◌, ◌*◌, ◌/◌, ◌%◌, List, set, get_or, replicate}

unfoldable pub popcount : ℕ → ℕ
popcount b =
    let pairs = (b + 256 - bit_and (b / 2) 85) % 256 in
    let nibbles = (bit_and pairs 51 + bit_and (pairs / 4) 51) % 256 in
    bit_and ((nibbles + nibbles / 16) % 256) 15

pub record Color : Type 0 where
  pub red : ℕ
  pub green : ℕ
  pub blue : ℕ

-- `abs(2*v - 8)`, of numbers.
abbrev pub distance : ℕ → ℕ → ℕ
distance a b = (a - b) + (b - a)

-- `heatColor` of 0 to 8. Its floating-point values are multiples of an eighth below 256, which are
-- exact, and the conversion to a byte drops the fraction.
unfoldable pub heat_color : ℕ → Color
heat_color v = record {
  red = 255 * v / 8;
  green = 255 * (8 - distance (2 * v) 8) / 8;
  blue = 255 * (8 - v) / 8;
}

-- The loops over the pixels, with the offset of a pixel and its number; they hand on the number.
module _ (paint : ℕ → ℕ → List ℕ → List ℕ) where
  unfoldable pub columns : ℕ → ℕ → ℕ → ℕ → List ℕ → ℕ × List ℕ
  columns zero x row i pix = (i, pix)
  columns (suc left) x row i pix = columns left (x + 1) row (i + 1) (paint (row + x * 4) i pix)

  unfoldable pub rows : ℕ → ℕ → ℕ → ℕ → List ℕ → List ℕ
  unfolding columns
  rows width zero y i pix = pix
  rows width (suc left) y i pix =
      let (i', pix') = columns width 0 (y * (width * 4)) i pix in rows width left (y + 1) i' pix'

-- The body of the loops of the heat map.
abbrev pub paint_heat : List ℕ → ℕ → ℕ → List ℕ → List ℕ
paint_heat buf off i pix =
    let c = heat_color (popcount (get_or buf i 0)) in
    set (set (set (set pix off c.red) (off + 1) c.green) (off + 2) c.blue) (off + 3) 255

unfoldable pub heat_pixels : ℕ → ℕ → List ℕ → List ℕ
unfolding rows heat_color popcount
heat_pixels width height buf =
    rows (paint_heat buf) width height 0 0 (replicate (4 * (width * height)) 0)

-- The body of the loops of the random image: the alpha channel is made opaque.
abbrev pub paint_opaque : ℕ → ℕ → List ℕ → List ℕ
paint_opaque off i pix = set pix (off + 3) 255

unfoldable pub opaque_pixels : ℕ → ℕ → List ℕ → List ℕ
unfolding rows
opaque_pixels width height pix = rows paint_opaque width height 0 0 pix
