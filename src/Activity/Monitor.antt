-- ===== src/Activity/Monitor.antt =====
-- The monitor and its samples. A time is a number of nanoseconds; rates are floating point, a
-- parameter. The ticker's calls are any list of samples.
use entropy_service.Prelude.{ℕ, ◌-◌, Option, none, some, List, [], ◌∷◌, ltb, leb, if◌then◌else◌}
use entropy_service.Prelude.Word.{add64}
use entropy_service.Metrics.{Metrics}
use entropy_service.Budget.Defs.{Budget, usage}
use entropy_service.Observability.Exposition.{Peaks}

-- `activityPeakCounters`.
pub record Counters : Type 0 where
  pub generated_bytes : ℕ
  pub ws_frames : ℕ
  pub http_requests : ℕ
  pub ws_rejections : ℕ
  pub http_rejections : ℕ

-- `float64(count)/seconds*scale` of so many nanoseconds, and `max`.
pub record Rates (F : Type 0) : Type 0 where
  pub zero_rate : F
  pub rate : ℕ → ℕ → ℕ → F
  pub larger : F → F → F

-- `last` is none while it is the zero time.
pub record Monitor (F : Type 0) : Type 0 where
  pub previous : Counters
  pub last : Option ℕ
  pub peak : Peaks F

abbrev pub no_counters : Counters
no_counters = record {
  generated_bytes = 0;
  ws_frames = 0;
  http_requests = 0;
  ws_rejections = 0;
  http_rejections = 0;
}

-- `readActivityCounters`, of what the metrics and the budgets hold.
unfoldable pub read_activity_counters : Metrics → Budget → Budget → Counters
unfolding usage
read_activity_counters metrics ws http =
    let u = usage ws in
    let v = usage http in
    record {
      generated_bytes = metrics.rng_bytes_generated;
      ws_frames = metrics.ws_payloads;
      http_requests = metrics.http_requests;
      ws_rejections = add64 (add64 u.rejected_active u.rejected_memory) u.rejected_size;
      http_rejections = add64 (add64 v.rejected_active v.rejected_memory) v.rejected_size;
    }

module _ {F : Type 0} (f : Rates F) where
  abbrev pub no_peaks : Peaks F
  no_peaks = record {
    generated_bytes_per_second = f.zero_rate;
    ws_frames_per_second = f.zero_rate;
    http_requests_per_second = f.zero_rate;
    ws_rejections_per_minute = f.zero_rate;
    http_rejections_per_minute = f.zero_rate;
  }

  abbrev pub new_monitor : Monitor F
  new_monitor = record { previous = no_counters; last = none; peak = no_peaks }

  -- The inner `observe`: a counter that went back is not a rate.
  abbrev pub observe_counter : ℕ → ℕ → ℕ → ℕ → F → F
  observe_counter elapsed scale current previous peak =
      if ltb current previous
      then peak
      else f.larger peak (f.rate (current - previous) elapsed scale)

  abbrev pub observe_since : ℕ → ℕ → Counters → Monitor F → Monitor F
  observe_since last now current m =
      let elapsed = now - last in
      let old = m.previous in
      if leb now last then m else record {
        previous = current;
        last = some now;
        peak = record {
          generated_bytes_per_second =
              observe_counter elapsed 1 current.generated_bytes old.generated_bytes
                m.peak.generated_bytes_per_second;
          ws_frames_per_second =
              observe_counter elapsed 1 current.ws_frames old.ws_frames m.peak.ws_frames_per_second;
          http_requests_per_second =
              observe_counter elapsed 1 current.http_requests old.http_requests
                m.peak.http_requests_per_second;
          ws_rejections_per_minute =
              observe_counter elapsed 60 current.ws_rejections old.ws_rejections
                m.peak.ws_rejections_per_minute;
          http_rejections_per_minute =
              observe_counter elapsed 60 current.http_rejections old.http_rejections
                m.peak.http_rejections_per_minute;
        };
      }

  abbrev pub observe_after : Option ℕ → ℕ → Counters → Monitor F → Monitor F
  observe_after none now current m = record m { last = some now; previous = current }
  observe_after (some last) now current m = observe_since last now current m

  unfoldable pub observe : ℕ → Counters → Monitor F → Monitor F
  observe now current m = observe_after m.last now current m

  -- `snapshot`, which a missing monitor answers with zeros.
  unfoldable pub snapshot : Option (Monitor F) → Peaks F
  snapshot none = no_peaks
  snapshot (some m) = m.peak

  -- `sample`, at the time when the read is completed.
  unfoldable pub sample : ℕ → Metrics → Budget → Budget → Monitor F → Monitor F
  unfolding observe read_activity_counters
  sample now metrics ws http m = observe now (read_activity_counters metrics ws http) m

  -- The samples of the ticker, each at its time.
  unfoldable pub run_samples : List (ℕ × Counters) → Monitor F → Monitor F
  unfolding observe
  run_samples [] m = m
  run_samples ((now, current) ∷ samples) m = run_samples samples (observe now current m)
