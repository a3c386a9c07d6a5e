-- ===== src/Client/Diag/Run.antt =====
-- diag.go: `RunDiagnosticsWithMatrix` and `computeHistogram`; dashboard.go: `Dashboard` with `push`
-- and `Add`. The statistics and the rule that judges them are floating point, a parameter; the rate
-- meters are left out.
use entropy_service.Prelude.{
  ℕ, Bool, false, List, [], ◌∷◌, ◌++◌, String, length, drop, leb, replicate, if◌then◌else◌, ◌==◌,
}
use entropy_service.Client.Diag.Counts.{
  bump, TransitionMatrix, no_transitions, build_transition_matrix,
}

-- The loop of `computeHistogram`.
abbrev pub fill_histogram : List ℕ → List ℕ → List ℕ
fill_histogram [] h = h
fill_histogram (b ∷ data_bytes) h = fill_histogram data_bytes (bump b 1 h)

unfoldable pub compute_histogram : List ℕ → List ℕ
compute_histogram data_bytes = fill_histogram data_bytes (replicate 256 0)

-- The floating-point functions of diag.go, with `passes` its rule over their results.
pub record Statistics (F : Type 0) : Type 0 where
  pub none_yet : F
  pub chi_square : List ℕ → ℕ → F
  pub chi2_p_value : F → F
  pub shannon_entropy : List ℕ → ℕ → F
  pub monobit_pvalue : List ℕ → F
  pub serial_correlation : List ℕ → F × F
  pub passes : F → F → F → F → Bool

-- `Diagnostics`.
pub record Diagnostics (F : Type 0) : Type 0 where
  pub n : ℕ
  pub histogram : List ℕ
  pub chi2 : F
  pub chi2_p : F
  pub shannon : F
  pub monobit_p : F
  pub serial_r : F
  pub serial_p : F
  pub t_matrix : TransitionMatrix
  pub pass : Bool
  pub notes : String

-- `Dashboard`: four series of a width.
pub record Dashboard (F : Type 0) : Type 0 where
  pub width : ℕ
  pub entropy : List F
  pub chi_p : List F
  pub mono_p : List F
  pub serial : List F

module _ {F : Type 0} (st : Statistics F) where
  unfoldable pub run_diagnostics_with_matrix : List ℕ → Bool → Diagnostics F
  unfolding compute_histogram build_transition_matrix
  run_diagnostics_with_matrix data_bytes include_matrix =
      let n = length data_bytes in
      let hist = compute_histogram data_bytes in
      let chi2 = st.chi_square hist n in
      let chi2_p = st.chi2_p_value chi2 in
      let shannon = st.shannon_entropy hist n in
      let mono_p = st.monobit_pvalue data_bytes in
      let (serial_r, serial_p) = st.serial_correlation data_bytes in
      if n == 0
      then record {
        n = 0;
        histogram = replicate 256 0;
        chi2 = st.none_yet;
        chi2_p = st.none_yet;
        shannon = st.none_yet;
        monobit_p = st.none_yet;
        serial_r = st.none_yet;
        serial_p = st.none_yet;
        t_matrix = no_transitions;
        pass = false;
        notes = "empty input";
      }
      else record {
        n = n;
        histogram = hist;
        chi2 = chi2;
        chi2_p = chi2_p;
        shannon = shannon;
        monobit_p = mono_p;
        serial_r = serial_r;
        serial_p = serial_p;
        t_matrix = if include_matrix then build_transition_matrix data_bytes else no_transitions;
        pass = st.passes mono_p chi2_p shannon serial_r;
        notes = "";
      }

-- With a width of 0 and no values, `series[1:]` panics, and here drops nothing.
abbrev pub push : {F : Type 0} → List F → F → ℕ → List F
push series v width =
    if leb width (length series) then drop 1 series ++ (v ∷ []) else series ++ (v ∷ [])

abbrev pub new_dashboard : {F : Type 0} → ℕ → Dashboard F
new_dashboard width = record { width = width; entropy = []; chi_p = []; mono_p = []; serial = [] }

unfoldable pub add_diagnostics : {F : Type 0} → Diagnostics F → Dashboard F → Dashboard F
add_diagnostics r d = record d {
  entropy = push d.entropy r.shannon d.width;
  chi_p = push d.chi_p r.chi2_p d.width;
  mono_p = push d.mono_p r.monobit_p d.width;
  serial = push d.serial r.serial_r d.width;
}
