-- ===== src/Tests/Peaks.antt =====
-- The peaks of three samples, one of them late, and the rounds of the mixer.
use entropy_service.Prelude.{ℕ, ◌+◌, ◌*◌, ◌≡◌, some, List, [], ◌∷◌, max}
use entropy_service.Prelude.Outcome.{Outcome, ok}
use entropy_service.Activity.Monitor.{Counters, Rates, new_monitor, no_peaks, snapshot, run_samples}
use entropy_service.Activity.Laws.{Sample, advancing, largest_rates, snapshot-run_samples}
use entropy_service.Rdrand.Mixer.{CpuError}

-- Whole numbers in place of floating point.
abbrev whole : Rates ℕ
whole = record { zero_rate = 0; rate = λ n elapsed scale. n * scale; larger = max }

abbrev counted : ℕ → Counters
counted n = record {
  generated_bytes = n;
  ws_frames = 0;
  http_requests = n + 1;
  ws_rejections = 0;
  http_rejections = 2;
}

abbrev later_samples : List Sample
later_samples = (5, counted 9) ∷ (4, counted 2) ∷ (9, counted 3) ∷ []

snapshot-run_samples_example :
    snapshot whole (some (run_samples whole ((1, counted 0) ∷ later_samples) (new_monitor whole)))
    ≡ largest_rates whole (no_peaks whole) (1, counted 0) (advancing 1 later_samples)
snapshot-run_samples_example = snapshot-run_samples whole (1, counted 0) later_samples

abbrev counting_words : ℕ → ℕ × Outcome CpuError ℕ
counting_words s = (s + 1, ok s)
