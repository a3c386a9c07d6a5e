-- ===== src/Observability/Exposition.antt =====
-- `metricsHandler` of observability.go: the series it exposes, in their order, with their kinds
-- and values. Floating point is left open: the observed peaks are numbers of a parameter type,
-- and the seconds of a duration are kept as its nanoseconds. The help texts are comments of the
-- format and are left out, as is the printing. The handler is modelled with a monitor, which the
-- server passes.
use entropy_service.Prelude.{ℕ, ◌/◌, String, List, [], ◌∷◌, if◌then◌else◌}
use entropy_service.Prelude.Int.{ℤ}
use entropy_service.Budget.Defs.{Budget, usage}
use entropy_service.Budget.WebSocket.{ws_inbound_limit}
use entropy_service.Drbg.Generator.{Process, Drbg}
use entropy_service.Drbg.Metadata.{get_metadata, milliseconds}
use entropy_service.Observability.Health.{reseed_ready}

pub data Kind : Type 0 where
  counter gauge untyped : Kind

pub data Value (Float : Type 0) : Type 0 where
  count : ℕ → Value Float
  signed : ℤ → Value Float
  seconds : ℤ → Value Float
  peak : Float → Value Float

-- `activityPeakValues`.
pub record Peaks (Float : Type 0) : Type 0 where
  pub generated_bytes_per_second : Float
  pub ws_frames_per_second : Float
  pub http_requests_per_second : Float
  pub ws_rejections_per_minute : Float
  pub http_rejections_per_minute : Float

pub record Series (Float : Type 0) : Type 0 where
  pub name : String
  pub kind : Kind
  pub value : Value Float

abbrev pub series : {Float : Type 0} → String → Kind → Value Float → Series Float
series name kind value = record { name = name; kind = kind; value = value }

module _ {Stream Float : Type 0} where
  unfoldable pub metrics_handler :
      Process → ℕ → ℤ → Drbg Stream → Budget → Budget → Peaks Float → List (Series Float)
  unfolding reseed_ready get_metadata usage
  metrics_handler p now max_age d ws http activity =
      let meta = get_metadata p now d in
      let ws_usage = usage ws in
      let http_usage = usage http in
      let m = p.metrics in
      series "rng_bytes_generated_total" counter (count m.rng_bytes_generated)
      ∷ series "rng_mb_generated_total" counter (count (m.rng_bytes_generated / 1048576))
      ∷ series "rng_reseeds_total" counter (count m.rng_reseeds)
      ∷ series "rng_generator_reseeds_total" counter (count meta.reseeds_total)
      ∷ series "rng_reseed_failures_total" counter (count meta.reseed_failures_total)
      ∷ series "rng_reseed_age_seconds" gauge (seconds meta.reseed_age)
      ∷ series "rng_reseed_age_ms" gauge (signed (milliseconds meta.reseed_age))
      ∷ series "rng_reseed_last_success_timestamp_seconds" gauge
          (count (meta.last_reseed_at / 1000000000))
      ∷ series "rng_ready" gauge (count (if reseed_ready meta max_age then 1 else 0))
      ∷ series "http_requests_total" counter (count m.http_requests)
      ∷ series "rng_generation_peak_bytes_per_second" gauge
          (peak activity.generated_bytes_per_second)
      ∷ series "wss_payloads_peak_per_second" gauge (peak activity.ws_frames_per_second)
      ∷ series "http_requests_peak_per_second" gauge (peak activity.http_requests_per_second)
      ∷ series "ws_rejections_peak_per_minute" gauge (peak activity.ws_rejections_per_minute)
      ∷ series "http_generation_rejections_peak_per_minute" gauge
          (peak activity.http_rejections_per_minute)
      ∷ series "http_generation_requests_active" gauge (count http_usage.active)
      ∷ series "http_generation_requests_limit" gauge (count http_usage.max_active)
      ∷ series "http_generation_requests_peak" gauge (count http_usage.peak_active)
      ∷ series "http_generation_memory_reserved_bytes" gauge (count http_usage.reserved)
      ∷ series "http_generation_memory_budget_bytes" gauge (count http_usage.max_memory)
      ∷ series "http_generation_memory_peak_reserved_bytes" gauge (count http_usage.peak_reserved)
      ∷ series "http_generation_rejected_requests_total" counter (count http_usage.rejected_active)
      ∷ series "http_generation_rejected_memory_total" counter (count http_usage.rejected_memory)
      ∷ series "http_generation_rejected_size_total" counter (count http_usage.rejected_size)
      ∷ series "wss_payloads_total" counter (count m.ws_payloads)
      ∷ series "wss_payloads" untyped (count m.ws_payloads)
      ∷ series "drbg_instance_count" gauge (signed meta.drbg_instance_cnt)
      ∷ series "drbg_instances_peak" gauge (signed p.peak_drbg)
      ∷ series "ws_connections_active" gauge (count ws_usage.active)
      ∷ series "ws_connections_limit" gauge (count ws_usage.max_active)
      ∷ series "ws_connections_peak" gauge (count ws_usage.peak_active)
      ∷ series "ws_inbound_message_limit_bytes" gauge (count ws_inbound_limit)
      ∷ series "ws_memory_reserved_bytes" gauge (count ws_usage.reserved)
      ∷ series "ws_memory_budget_bytes" gauge (count ws_usage.max_memory)
      ∷ series "ws_memory_peak_reserved_bytes" gauge (count ws_usage.peak_reserved)
      ∷ series "ws_rejected_connections_total" counter (count ws_usage.rejected_active)
      ∷ series "ws_rejected_memory_total" counter (count ws_usage.rejected_memory)
      ∷ series "ws_rejected_size_total" counter (count ws_usage.rejected_size)
      ∷ series "qrng_buffer_enabled" gauge (count 0)
      ∷ series "qrng_buffer_bytes" gauge (count 0)
      ∷ series "qrng_buffer_capacity_bytes" gauge (count 0)
      ∷ series "qrng_buffer_capacity_kb" gauge (count 0)
      ∷ series "qrng_buffer_capacity_pct" gauge (count 0)
      ∷ series "entropy_buffer_capacity_kb" gauge (count 0)
      ∷ series "entropy_buffer_capacity_kb_A" gauge (count 0)
      ∷ series "entropy_buffer_capacity_kb_B" gauge (count 0)
      ∷ []
