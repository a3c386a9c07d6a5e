-- ===== src/Client/Diag/Laws.antt =====
-- The diagnostics count every byte once, and the graph keeps the newest values.
use entropy_service.Prelude.{
  ℕ, zero, suc, ◌+◌, ◌-◌, ◌*◌, ◌/◌, ◌≤◌, ◌<◌, ◌≡◌, refl, ap, ◌∙◌, List, [], ◌∷◌, ◌++◌, arith,
  length, get_or, drop, length-append, length-drop, length-set, length-replicate, replicate,
  append-nil, append_assoc, leb, if◌then◌else◌,
}
use entropy_service.Client.Diag.Counts.{
  bump, fill_bins, fill_counts, histogram_bins, histogram64, TransitionMatrix, count_transitions,
  build_transition_matrix, EntropyGraph, new_entropy_graph, add_quality, add_qualities,
}

abbrev pub sum : List ℕ → ℕ
sum [] = 0
sum (n ∷ ns) = n + sum ns

-- Every byte is below 256.
abbrev pub AreBytes : List ℕ → Type 0
AreBytes [] = Unit {0}
AreBytes (b ∷ bs) = (b < 256) × AreBytes bs

sum-bump : (bins : List ℕ) (i n : ℕ) → i < length bins → sum (bump i n bins) ≡ sum bins + n
sum-bump [] i n h = omega arith
sum-bump (x ∷ xs) zero n h = omega arith
sum-bump (x ∷ xs) (suc i) n h = omega (arith, sum-bump xs i n (omega arith))

length-bump : (bins : List ℕ) (i n : ℕ) → length (bump i n bins) ≡ length bins
length-bump bins i n = length-set bins i (get_or bins i 0 + n)

sum-replicate : (n : ℕ) → sum (replicate n 0) ≡ 0
sum-replicate zero = refl
sum-replicate (suc n) = omega (arith, sum-replicate n)

sum-fill_bins :
    (bytes bins : List ℕ)
    → AreBytes bytes
    → length bins ≡ 32
    → (sum (fill_bins bytes bins) ≡ sum bins + length bytes) × (length (fill_bins bytes bins) ≡ 32)
sum-fill_bins [] bins h e = omega arith
sum-fill_bins (b ∷ bytes) bins h e = omega (
  arith,
  sum-bump bins (b / 8) 1,
  sum-fill_bins bytes (bump (b / 8) 1 bins) h.1 (omega (arith, length-bump bins (b / 8) 1)),
)

sum-fill_counts :
    (counts bins : List ℕ) (value : ℕ)
    → value + length counts ≤ 256
    → length bins ≡ 32
    → (sum (fill_counts value counts bins) ≡ sum bins + sum counts)
      × (length (fill_counts value counts bins) ≡ 32)
sum-fill_counts [] bins value h e = omega arith
sum-fill_counts (n ∷ counts) bins value h e = omega (
  arith,
  sum-bump bins (value / 8) n,
  sum-fill_counts counts (bump (value / 8) n bins) (suc value) (omega arith)
      (omega (arith, length-bump bins (value / 8) n)),
)

-- Of bytes below 256, and of the counts of at most 256 values, each histogram has 32 bins that
-- count every byte once: the bins of `Histogram64` add up to the number of bytes, whatever its
-- first argument, and those of `PrintHistogramCounts` to the counts.
pub sum-histogram64 :
    (buckets : ℕ) (bytes hist : List ℕ)
    → AreBytes bytes
    → length hist ≤ 256
    → (sum (histogram64 buckets bytes) ≡ length bytes)
      × (length (histogram64 buckets bytes) ≡ 32)
      × (sum (histogram_bins hist) ≡ sum hist)
      × (length (histogram_bins hist) ≡ 32)
unfolding histogram64 histogram_bins
sum-histogram64 buckets bytes hist h k = omega (
  arith,
  sum-fill_bins bytes (replicate 32 0) h refl,
  sum-fill_counts hist (replicate 32 0) 0 (omega arith) refl,
  sum-replicate 32,
)

sum-count_transitions :
    (bytes : List ℕ) (a : ℕ) (tm : TransitionMatrix)
    → AreBytes (a ∷ bytes)
    → length tm.matrix ≡ 4096
    → (sum (count_transitions a bytes tm).matrix ≡ sum tm.matrix + length bytes)
      × ((count_transitions a bytes tm).total ≡ tm.total + length bytes)
sum-count_transitions [] a tm h e = omega arith
sum-count_transitions (b ∷ bytes) a tm h e = omega (
  arith,
  sum-bump tm.matrix (64 * (a / 4) + b / 4) 1,
  sum-count_transitions bytes b
      (record { matrix = bump (64 * (a / 4) + b / 4) 1 tm.matrix; total = tm.total + 1 }) h.1
      (omega (arith, length-bump tm.matrix (64 * (a / 4) + b / 4) 1)),
)

-- Of bytes below 256, the transition matrix counts each pair of neighbours once: its entries add
-- up to its total, which is one less than the number of bytes, and 0 when there are none.
pub sum-build_transition_matrix :
    (bytes : List ℕ)
    → AreBytes bytes
    → (sum (build_transition_matrix bytes).matrix ≡ (build_transition_matrix bytes).total)
      × ((build_transition_matrix bytes).total ≡ length bytes - 1)
unfolding build_transition_matrix
sum-build_transition_matrix [] h = (sum-replicate 4096, refl)
sum-build_transition_matrix (a ∷ bytes) h = omega (
  arith,
  sum-count_transitions bytes a (record { matrix = replicate 4096 0; total = 0 }) h
      (length-replicate {A = ℕ} 4096 0),
  sum-replicate 4096,
)

module _ {Quality : Type 0} where
  drop-append : (n : ℕ) (xs ys : List Quality) → n ≤ length xs → drop n (xs ++ ys) ≡ drop n xs ++ ys
  drop-append zero xs ys h = refl
  drop-append (suc n) [] ys h = absurd (omega arith)
  drop-append (suc n) (x ∷ xs) ys h = drop-append n xs ys (omega arith)

  drop-suc : (n : ℕ) (xs : List Quality) → drop 1 (drop n xs) ≡ drop (suc n) xs
  drop-suc zero xs = refl
  drop-suc (suc n) [] = refl
  drop-suc (suc n) (x ∷ xs) = drop-suc n xs

  -- The newest values, at most as many as fit the width.
  abbrev pub newest : ℕ → List Quality → List Quality
  newest width xs = drop (length xs - width) xs

  newest-append :
      (w : ℕ) (xs : List Quality) (v : Quality)
      → 0 < w
      → (if leb w (length (newest w xs))
          then drop 1 (newest w xs) ++ (v ∷ [])
          else newest w xs ++ (v ∷ []))
        ≡ newest w (xs ++ (v ∷ []))
  newest-append w xs v h = ground (
    arith,
    length-drop (length xs - w) xs,
    length-append xs (v ∷ []),
    drop-suc (length xs - w) xs,
    drop-append (length xs - w) xs (v ∷ []),
    drop-append (suc (length xs - w)) xs (v ∷ []),
  )

  add_quality-newest :
      (w : ℕ) (v : Quality) (xs : List Quality) (g : EntropyGraph Quality)
      → 0 < w
      → g.width ≡ w
      → g.values ≡ newest w xs
      → ((add_quality v g).values ≡ newest w (xs ++ (v ∷ []))) × ((add_quality v g).width ≡ w)
  unfolding add_quality
  add_quality-newest w v xs g h k e = grind (arith, newest-append w xs v h)

  add_qualities-newest :
      (w : ℕ) (vs xs : List Quality) (g : EntropyGraph Quality)
      → 0 < w
      → g.width ≡ w
      → g.values ≡ newest w xs
      → (add_qualities vs g).values ≡ newest w (xs ++ vs)
  unfolding add_qualities
  add_qualities-newest w [] xs g h k e = rw (append-nil, e)
  add_qualities-newest w (v ∷ vs) xs g h k e =
      let (values, width) = add_quality-newest w v xs g h k e in
      add_qualities-newest w vs (xs ++ (v ∷ [])) (add_quality v g) h width values
      ∙ ap (newest w) (append_assoc xs (v ∷ []) vs)

  -- A graph of a positive width shows the newest values it was given, in their order, at most as
  -- many as its width, however many were added.
  pub add_qualities-new_entropy_graph :
      (width : ℕ) (vs : List Quality)
      → 0 < width
      → (add_qualities vs (new_entropy_graph width)).values ≡ newest width vs
  add_qualities-new_entropy_graph width vs h =
      add_qualities-newest width vs [] (new_entropy_graph width) h refl (ground (arith))
