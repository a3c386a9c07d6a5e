-- ===== src/Upload/Chunks.antt =====
-- What an analysis holds after some chunks of a body, and what one chunk more does to it.
use native.Mathlib.Nat.{sub-zero, zero-sub, suc-sub-suc, zero-min, min-zero, suc-min-suc}
use entropy_service.Prelude.{
  ℕ, zero, suc, ◌+◌, ◌-◌, ◌≤◌, ◌≡◌, refl, ap, ap₂, ◌∙◌, sym, List, [], ◌∷◌, ◌++◌, arith, ◌==◌,
  if◌then◌else◌, length, length-append, take, length-take, min,
}
use entropy_service.Upload.Analyze.{FileAnalysis, ones_count8, tally, absorb, upload_preview_bytes}

-- How often a value occurs, and the one bits of some bytes.
unfoldable pub count : ℕ → List ℕ → ℕ
count w [] = 0
count w (v ∷ bytes) = (if w == v then 1 else 0) + count w bytes

unfoldable pub ones_of : List ℕ → ℕ
ones_of [] = 0
ones_of (v ∷ bytes) = ones_count8 v + ones_of bytes

-- An analysis of a body: everything is in the digest, and the statistics and the preview are those
-- of its prefixes.
pub record Describes (limit : ℕ) (body : List ℕ) (r : FileAnalysis) : Type 0 where
  pub total : r.total_bytes ≡ length body
  pub written : r.written ≡ body
  pub analyzed : r.analyzed_bytes ≡ length (take limit body)
  pub histogram : (w : ℕ) → r.histogram w ≡ count w (take limit body)
  pub ones : r.ones ≡ ones_of (take limit body)
  pub preview : r.preview ≡ take (min limit upload_preview_bytes) body

pub ones_count8-le : (v : ℕ) → ones_count8 v ≤ 8
unfolding ones_count8
ones_count8-le v = omega arith

pub count-append : (w : ℕ) (xs ys : List ℕ) → count w (xs ++ ys) ≡ count w xs + count w ys
unfolding count
count-append w [] ys = omega arith
count-append w (x ∷ xs) ys = omega (arith, count-append w xs ys)

pub ones_of-append : (xs ys : List ℕ) → ones_of (xs ++ ys) ≡ ones_of xs + ones_of ys
unfolding ones_of
ones_of-append [] ys = omega arith
ones_of-append (x ∷ xs) ys = omega (arith, ones_of-append xs ys)

-- The part of a longer body that a limit takes.
pub take_none : {A : Type 0} (n : ℕ) → take {A = A} n [] ≡ []
take_none zero = refl
take_none (suc n) = refl

pub take-append :
    {A : Type 0} (n : ℕ) (xs ys : List A) → take n (xs ++ ys) ≡ take n xs ++ take (n - length xs) ys
take-append {A} n [] ys = rw (take_none {A = A} n, sub-zero)
take-append zero (x ∷ xs) ys = rw zero-sub
take-append (suc n) (x ∷ xs) ys = rw suc-sub-suc (ap (◌∷◌ x) (take-append n xs ys))

-- A limit counts only up to the length, and a limit within a limit is the smaller.
take_same :
    {A : Type 0} (n m : ℕ) (xs : List A)
    → min n (length xs) ≡ min m (length xs)
    → take n xs ≡ take m xs
take_same n m [] h = take_none n ∙ sym (take_none m)
take_same zero zero (x ∷ xs) h = refl
take_same zero (suc m) (x ∷ xs) h = absurd (omega arith)
take_same (suc n) zero (x ∷ xs) h = absurd (omega arith)
take_same (suc n) (suc m) (x ∷ xs) h = ap (◌∷◌ x) (take_same n m xs (omega arith))

take-take : {A : Type 0} (n m : ℕ) (xs : List A) → take n (take m xs) ≡ take (min n m) xs
take-take n m [] = ap (take n) (take_none m) ∙ take_none n ∙ sym (take_none (min n m))
take-take zero m (x ∷ xs) = rw zero-min
take-take (suc n) zero (x ∷ xs) = rw min-zero
take-take (suc n) (suc m) (x ∷ xs) = rw suc-min-suc (ap (◌∷◌ x) (take-take n m xs))

pub record Tallied (part : List ℕ) (r r' : FileAnalysis) : Type 0 where
  pub histogram : (w : ℕ) → r'.histogram w ≡ r.histogram w + count w part
  pub ones : r'.ones ≡ r.ones + ones_of part
  pub preview : r'.preview ≡ r.preview

pub tally-Tallied : (part : List ℕ) (r : FileAnalysis) → Tallied part r (tally part r)
unfolding tally count ones_of
tally-Tallied [] r = record { histogram = λ w. omega arith; ones = omega arith; preview = refl }
tally-Tallied (v ∷ part) r =
    let rest = tally-Tallied part (record r {
      histogram = λ w. if w == v then r.histogram w + 1 else r.histogram w;
      ones = r.ones + ones_count8 v;
    }) in
    record {
      histogram = λ w. ground (arith, rest.histogram w);
      ones = omega (arith, rest.ones);
      preview = rest.preview;
    }

module _ (limit : ℕ) (body chunk : List ℕ) (r : FileAnalysis) (v : Describes limit body r) where
  -- What the limit takes of the chunk, as the source computes it.
  abbrev part : List ℕ
  part = take (min (length chunk) (limit - r.analyzed_bytes)) chunk

  part_lem : part ≡ take (limit - length body) chunk
  part_lem =
      take_same (min (length chunk) (limit - r.analyzed_bytes)) (limit - length body) chunk
        (omega (arith, v.analyzed, length-take limit body))

  analyzed_part : take limit (body ++ chunk) ≡ take limit body ++ part
  analyzed_part = rw part_lem (take-append limit body chunk)

  preview_part :
      r.preview ++ take (min (length part) (upload_preview_bytes - length r.preview)) part
      ≡ take (min limit upload_preview_bytes) (body ++ chunk)
  preview_part =
      let room = min (length chunk) (limit - r.analyzed_bytes) in
      let kept = min (length part) (upload_preview_bytes - length r.preview) in
      let both = min limit upload_preview_bytes in
      ap₂ ◌++◌ v.preview (
        take-take kept room chunk
        ∙ take_same (min kept room) (both - length body) chunk (
            omega (
              arith,
              v.analyzed,
              length-take limit body,
              ap length v.preview,
              length-take both body,
              length-take room chunk,
            )))
      ∙ sym (take-append both body chunk)

  -- One chunk more.
  pub absorb-Describes : Describes limit (body ++ chunk) (absorb limit chunk r)
  unfolding absorb
  absorb-Describes =
      let t = tally-Tallied part r in
      record {
        total = omega (arith, v.total, length-append body chunk);
        written = ap (λ (b : List ℕ). b ++ chunk) v.written;
        analyzed =
            omega
              (arith, v.analyzed, ap length analyzed_part, length-append (take limit body) part);
        histogram = λ w.
            t.histogram w
            ∙ omega (
              arith,
              v.histogram w,
              ap (count w) analyzed_part,
              count-append w (take limit body) part,
            );
        ones =
            t.ones
            ∙ omega
                (arith, v.ones, ap ones_of analyzed_part, ones_of-append (take limit body) part);
        preview = preview_part;
      }
