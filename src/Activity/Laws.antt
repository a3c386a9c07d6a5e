-- ===== src/Activity/Laws.antt =====
-- The peaks that are shown are the largest of the rates that were observed.
use entropy_service.Prelude.{
  ℕ, ◌-◌, ◌≡◌, refl, ◌∙◌, sym, ap, some, List, [], ◌∷◌, ltb, leb, arith, if◌then◌else◌, Bool-cases,
  inl, inr, true, false,
}
use entropy_service.Observability.Exposition.{Peaks}
use entropy_service.Activity.Monitor.{
  Counters, Rates, Monitor, no_peaks, new_monitor, observe_counter, observe, snapshot, run_samples,
}

abbrev pub Sample : Type 0
Sample = ℕ × Counters

-- The samples that are later than all before them.
pub advancing : ℕ → List Sample → List Sample
advancing last [] = []
advancing last ((now, current) ∷ samples) =
    let rest = advancing last samples in
    let later = advancing now samples in if leb now last then rest else (now, current) ∷ later

module _ {F : Type 0} (f : Rates F) where
  -- The rates of a counter between neighbours, where it did not go back.
  pub rates : (Counters → ℕ) → ℕ → Sample → List Sample → List F
  rates counter scale (last, old) [] = []
  rates counter scale (last, old) ((now, current) ∷ samples) =
      let rest = rates counter scale (now, current) samples in
      if ltb (counter current) (counter old)
      then rest
      else f.rate (counter current - counter old) (now - last) scale ∷ rest

  pub largest : F → List F → F
  largest peak [] = peak
  largest peak (r ∷ rs) = largest (f.larger peak r) rs

  -- The largest rate of each of the five counters, with seconds and minutes as they are shown.
  abbrev pub largest_rates : Peaks F → Sample → List Sample → Peaks F
  largest_rates p first samples = record {
    generated_bytes_per_second =
        largest p.generated_bytes_per_second (rates (λ c. c.generated_bytes) 1 first samples);
    ws_frames_per_second =
        largest p.ws_frames_per_second (rates (λ c. c.ws_frames) 1 first samples);
    http_requests_per_second =
        largest p.http_requests_per_second (rates (λ c. c.http_requests) 1 first samples);
    ws_rejections_per_minute =
        largest p.ws_rejections_per_minute (rates (λ c. c.ws_rejections) 60 first samples);
    http_rejections_per_minute =
        largest p.http_rejections_per_minute (rates (λ c. c.http_rejections) 60 first samples);
  }

  largest-rates :
      (counter : Counters → ℕ) (scale last now : ℕ) (old current : Counters) (samples : List Sample)
      (p : F)
      → largest
          (observe_counter f (now - last) scale (counter current) (counter old) p)
          (rates counter scale (now, current) samples)
        ≡ largest p (rates counter scale (last, old) ((now, current) ∷ samples))
  unfolding rates largest
  largest-rates counter scale last now old current samples p = ground arith

  -- The peaks after a sample that is later than the last one.
  abbrev raised : ℕ → Counters → Peaks F → ℕ → Counters → Peaks F
  raised last old p now current = record {
    generated_bytes_per_second =
        observe_counter f (now - last) 1 current.generated_bytes old.generated_bytes
          p.generated_bytes_per_second;
    ws_frames_per_second =
        observe_counter f (now - last) 1 current.ws_frames old.ws_frames p.ws_frames_per_second;
    http_requests_per_second =
        observe_counter f (now - last) 1 current.http_requests old.http_requests
          p.http_requests_per_second;
    ws_rejections_per_minute =
        observe_counter f (now - last) 60 current.ws_rejections old.ws_rejections
          p.ws_rejections_per_minute;
    http_rejections_per_minute =
        observe_counter f (now - last) 60 current.http_rejections old.http_rejections
          p.http_rejections_per_minute;
  }

  abbrev watching : ℕ → Counters → Peaks F → Monitor F
  watching last old p = record { previous = old; last = some last; peak = p }

  observe-late :
      (last now : ℕ) (old current : Counters) (p : Peaks F)
      → leb now last ≡ true
      → observe f now current (watching last old p) ≡ watching last old p
  unfolding observe
  observe-late last now old current p e = rw e refl

  observe-next :
      (last now : ℕ) (old current : Counters) (p : Peaks F)
      → leb now last ≡ false
      → observe f now current (watching last old p)
        ≡ watching now current (raised last old p now current)
  unfolding observe
  observe-next last now old current p e = rw e refl

  advancing-late :
      (last now : ℕ) (current : Counters) (samples : List Sample)
      → leb now last ≡ true
      → advancing last ((now, current) ∷ samples) ≡ advancing last samples
  unfolding advancing
  advancing-late last now current samples e = rw e refl

  advancing-next :
      (last now : ℕ) (current : Counters) (samples : List Sample)
      → leb now last ≡ false
      → advancing last ((now, current) ∷ samples) ≡ (now, current) ∷ advancing now samples
  unfolding advancing
  advancing-next last now current samples e = rw e refl

  largest_rates-raised :
      (last now : ℕ) (old current : Counters) (p : Peaks F) (samples : List Sample)
      → largest_rates (raised last old p now current) (now, current) samples
        ≡ largest_rates p (last, old) ((now, current) ∷ samples)
  largest_rates-raised last now old current p samples =
      rw
        (largest-rates (λ c. c.generated_bytes) 1 last now old current samples
          p.generated_bytes_per_second)
        (rw (largest-rates (λ c. c.ws_frames) 1 last now old current samples p.ws_frames_per_second)
          (rw
            (largest-rates (λ c. c.http_requests) 1 last now old current samples
              p.http_requests_per_second)
            (rw
              (largest-rates (λ c. c.ws_rejections) 60 last now old current samples
                p.ws_rejections_per_minute)
              (rw
                (largest-rates (λ c. c.http_rejections) 60 last now old current samples
                  p.http_rejections_per_minute)
                refl))))

  run_samples-peak :
      (samples : List Sample) (last : ℕ) (old : Counters) (p : Peaks F)
      → (run_samples f samples (watching last old p)).peak
        ≡ largest_rates p (last, old) (advancing last samples)
  unfolding run_samples largest rates advancing
  run_samples-peak [] last old p = refl
  run_samples-peak ((now, current) ∷ samples) last old p = elim (Bool-cases (leb now last)) [
    | inl e ↦
        ap (λ m. (run_samples f samples m).peak) (observe-late last now old current p e)
        ∙ run_samples-peak samples last old p
        ∙ ap (largest_rates p (last, old)) (sym (advancing-late last now current samples e))
    | inr e ↦
        ap (λ m. (run_samples f samples m).peak) (observe-next last now old current p e)
        ∙ run_samples-peak samples now current (raised last old p now current)
        ∙ largest_rates-raised last now old current p (advancing now samples)
        ∙ ap (largest_rates p (last, old)) (sym (advancing-next last now current samples e))
  ]

  -- After a first sample and any others, in whatever order their times are, the peaks that are
  -- shown are, for each of the five counters, the largest of zero and of the rates between
  -- neighbours among the samples that are later than all before them, without the intervals in
  -- which the counter went back.
  pub snapshot-run_samples :
      (first : Sample) (samples : List Sample)
      → snapshot f (some (run_samples f (first ∷ samples) (new_monitor f)))
        ≡ largest_rates (no_peaks f) first (advancing first.0 samples)
  unfolding snapshot run_samples observe
  snapshot-run_samples first samples = run_samples-peak samples first.0 first.1 (no_peaks f)
