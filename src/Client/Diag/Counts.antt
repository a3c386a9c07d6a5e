-- ===== src/Client/Diag/Counts.antt =====
-- histogram.go, transition.go and entropy_graph.go, less the drawing. Bytes are numbers below 256;
-- an array is a list of its length, and an index out of it would be a panic, so it changes nothing
-- here. A quality value of the graph is of a parameter type.
use entropy_service.Prelude.{
  ℕ, suc, ◌+◌, ◌*◌, ◌/◌, List, [], ◌∷◌, ◌++◌, leb, length, get_or, set, drop, replicate, max,
  if◌then◌else◌,
}

-- `bins[i] += n`.
abbrev pub bump : ℕ → ℕ → List ℕ → List ℕ
bump i n bins = set bins i (get_or bins i 0 + n)

abbrev pub fill_counts : ℕ → List ℕ → List ℕ → List ℕ
fill_counts value [] bins = bins
fill_counts value (count ∷ counts) bins =
    fill_counts (suc value) counts (bump (value / 8) count bins)

-- The 32 bins of `PrintHistogramCounts`, from the counts of the 256 byte values.
unfoldable pub histogram_bins : List ℕ → List ℕ
histogram_bins hist = fill_counts 0 hist (replicate 32 0)

abbrev pub peak_of : ℕ → List ℕ → ℕ
peak_of peak [] = peak
peak_of peak (count ∷ counts) = peak_of (max peak count) counts

abbrev pub bars : ℕ → List ℕ → List ℕ
bars peak [] = []
bars peak (count ∷ counts) = count * 50 / peak ∷ bars peak counts

-- The lengths of the bars that `PrintHistogramCounts` draws.
unfoldable pub print_histogram_counts : List ℕ → List ℕ
unfolding histogram_bins
print_histogram_counts hist = bars (peak_of 1 (histogram_bins hist)) (histogram_bins hist)

abbrev pub fill_bins : List ℕ → List ℕ → List ℕ
fill_bins [] bins = bins
fill_bins (b ∷ data_bytes) bins = fill_bins data_bytes (bump (b / 8) 1 bins)

-- `Histogram64`; its first argument is ignored.
unfoldable pub histogram64 : ℕ → List ℕ → List ℕ
histogram64 buckets data_bytes = fill_bins data_bytes (replicate 32 0)

-- `TransitionMatrix`, its 64 rows one after the other.
pub record TransitionMatrix : Type 0 where
  pub matrix : List ℕ
  pub total : ℕ

abbrev pub no_transitions : TransitionMatrix
no_transitions = record { matrix = replicate 4096 0; total = 0 }

abbrev pub count_transitions : ℕ → List ℕ → TransitionMatrix → TransitionMatrix
count_transitions a [] tm = tm
count_transitions a (b ∷ data_bytes) tm =
    count_transitions b data_bytes
      (record { matrix = bump (64 * (a / 4) + b / 4) 1 tm.matrix; total = tm.total + 1 })

-- `BuildTransitionMatrix`: nothing is counted for fewer than two bytes.
unfoldable pub build_transition_matrix : List ℕ → TransitionMatrix
build_transition_matrix [] = no_transitions
build_transition_matrix (a ∷ data_bytes) = count_transitions a data_bytes no_transitions

-- `EntropyGraph`.
pub record EntropyGraph (Quality : Type 0) : Type 0 where
  pub values : List Quality
  pub width : ℕ

module _ {Quality : Type 0} where
  abbrev pub new_entropy_graph : ℕ → EntropyGraph Quality
  new_entropy_graph width = record { values = []; width = width }

  -- `Add`. With a width of 0 and no values, `values[1:]` panics, and here drops nothing.
  unfoldable pub add_quality : Quality → EntropyGraph Quality → EntropyGraph Quality
  add_quality v g =
      if leb g.width (length g.values)
      then record g { values = drop 1 g.values ++ (v ∷ []) }
      else record g { values = g.values ++ (v ∷ []) }

  unfoldable pub add_qualities : List Quality → EntropyGraph Quality → EntropyGraph Quality
  add_qualities [] g = g
  add_qualities (v ∷ vs) g = add_qualities vs (add_quality v g)
