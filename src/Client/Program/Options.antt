-- ===== src/Client/Program/Options.antt =====
-- The options of the client, and what its choices between them decide.
use text.Mathlib.Text.{◌==◌}
use text.Mathlib.TextEquality.{eq_iff}
use entropy_service.Prelude.{
  ℕ, ◌≤◌, ◌≡◌, refl, sym, ◌∙◌, ◌⊎◌, inl, inr, Bool, true, false, ◌&&◌, not, Option, some, String,
  [], ◌∷◌, arith, if◌then◌else◌,
}
use mathlib.Core.Bool.{false≢true}
use entropy_service.Prelude.Int.{ℤ, pos, ◌≤ℤ◌}
use entropy_service.Prelude.Outcome.{ok}
use entropy_service.Client.Frames.Lease.{stream_frame_size}
use entropy_service.Client.Program.Run.{
  ClientConfig, validate_analysis, millisecond, max_slice, mode_pull, mode_stream,
}

-- The options that are accepted.
abbrev pub Startable : ClientConfig → Type 0
Startable cfg =
    ((cfg.mode ≡ mode_pull) ⊎ (cfg.mode ≡ mode_stream))
    × (pos 1 ≤ℤ cfg.slice)
    × (cfg.slice ≤ℤ pos max_slice)
    × (pos millisecond ≤ℤ cfg.refresh)
    × (pos 0 ≤ℤ cfg.analysis_bytes)
    × (cfg.analysis_bytes ≤ℤ pos 33554432)
    × (pos 0 ≤ℤ cfg.analysis_interval)
    × (pos millisecond ≤ℤ cfg.display_interval)

abbrev pub Analysable : ClientConfig → Type 0
Analysable cfg =
    (pos 0 ≤ℤ cfg.analysis_bytes)
    × (cfg.analysis_bytes ≤ℤ pos 33554432)
    × (pos 0 ≤ℤ cfg.analysis_interval)
    × (pos millisecond ≤ℤ cfg.display_interval)

pub validated : (cfg : ClientConfig) → validate_analysis cfg ≡ ok tt → Analysable cfg
unfolding validate_analysis
validated cfg h = ground (arith, h)

pub false_of_not : (b : Bool) → not b ≡ true → b ≡ false
false_of_not true h = cc
false_of_not false h = refl

pub true_of_not : (b : Bool) → not b ≡ false → b ≡ true
true_of_not true h = refl
true_of_not false h = cc

pub not_equal : (s t : String) → (s == t) ≡ false → ¬ (s ≡ t)
not_equal s t h = λ e. false≢true (sym h ∙ (eq_iff s t).1 e)

pub neither : (a b : Bool) → (not a && not b) ≡ true → (a ≡ false) × (b ≡ false)
neither false false h = (refl, refl)
neither true b h = cc
neither false true h = cc

pub either : (a b : Bool) → (not a && not b) ≡ false → (a ≡ true) ⊎ (b ≡ true)
either true b h = inl refl
either false true h = inr refl
either false false h = cc

pub neither_mode :
    (mode : String)
    → (not (mode == mode_pull) && not (mode == mode_stream)) ≡ true
    → ¬ (mode ≡ mode_pull) × ¬ (mode ≡ mode_stream)
neither_mode mode h =
    let (pull, stream) = neither (mode == mode_pull) (mode == mode_stream) h in
    (not_equal mode mode_pull pull, not_equal mode mode_stream stream)

pub some_mode :
    (mode : String)
    → (not (mode == mode_pull) && not (mode == mode_stream)) ≡ false
    → (mode ≡ mode_pull) ⊎ (mode ≡ mode_stream)
some_mode mode h = elim (either (mode == mode_pull) (mode == mode_stream) h) [
  | inl e ↦ inl ((eq_iff mode mode_pull).0 e)
  | inr e ↦ inr ((eq_iff mode mode_stream).0 e)
]

-- If Atoi reads back what FormatInt wrote of a slice that is accepted, the size that the stream
-- expects of its frames is the slice.
pub stream_frame_size-slice :
    (atoi : String → Option ℤ) (format : ℤ → String) (n : ℕ)
    → atoi (format (pos n)) ≡ some (pos n)
    → 1 ≤ n
    → n ≤ max_slice
    → stream_frame_size atoi (some (format (pos n) ∷ [])) ≡ ok n
unfolding stream_frame_size
stream_frame_size-slice atoi format n h low high = rw h (ground (arith, low, high))

pub deadline_of :
    {E : Type 0} (is_deadline : E → Bool) (e x : E)
    → not (is_deadline e) ≡ false
    → some e ≡ some x
    → is_deadline x ≡ true
deadline_of is_deadline e x d q = cc (q, true_of_not (is_deadline e) d)

-- Of two results, the one of the mode.
pub pick_mode :
    {A : Type 0} (mode : String) (a b : A)
    → (mode ≡ mode_pull) ⊎ (mode ≡ mode_stream)
    → ((mode ≡ mode_pull) × (a ≡ (if mode == mode_pull then a else b)))
      ⊎ ((mode ≡ mode_stream) × (b ≡ (if mode == mode_pull then a else b)))
pick_mode mode a b (inl e) = inl (e, rw e refl)
pick_mode mode a b (inr e) = inr (e, rw e refl)
