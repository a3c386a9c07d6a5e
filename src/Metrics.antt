-- ===== src/Metrics.antt =====
-- cmd/entropy-server/internal/metrics/metrics.go: the process-wide counters. Each is an
-- `atomic.Uint64`, so an addition is one step; an `int` argument is converted to uint64 first.
use entropy_service.Prelude.{ℕ, ◌-◌, ◌%◌}
use entropy_service.Prelude.Int.{ℤ, pos, negsuc}
use entropy_service.Prelude.Word.{u64_mod, add64}

pub record Metrics : Type 0 where
  pub rng_bytes_generated : ℕ
  pub rng_reseeds : ℕ
  pub rng_bytes_buffered : ℕ
  pub rng_bytes_test_a : ℕ
  pub rng_bytes_test_b : ℕ
  pub http_requests : ℕ
  pub ws_payloads : ℕ

-- Go's `uint64(n)` of an `int`.
abbrev pub to_u64 : ℤ → ℕ
to_u64 (pos n) = n % u64_mod
to_u64 (negsuc n) = u64_mod - 1 - n % u64_mod

abbrev pub add_buffered_bytes : ℕ → Metrics → Metrics
add_buffered_bytes n m = record m { rng_bytes_buffered = add64 m.rng_bytes_buffered n }

abbrev pub add_reseeds : ℤ → Metrics → Metrics
add_reseeds n m = record m { rng_reseeds = add64 m.rng_reseeds (to_u64 n) }

abbrev pub add_bytes_generated : ℤ → Metrics → Metrics
add_bytes_generated n m = record m { rng_bytes_generated = add64 m.rng_bytes_generated (to_u64 n) }

abbrev pub add_http_requests : ℤ → Metrics → Metrics
add_http_requests n m = record m { http_requests = add64 m.http_requests (to_u64 n) }

abbrev pub add_ws_payloads : ℤ → Metrics → Metrics
add_ws_payloads n m = record m { ws_payloads = add64 m.ws_payloads (to_u64 n) }

abbrev pub add_test_a : ℤ → Metrics → Metrics
add_test_a n m = record m { rng_bytes_test_a = add64 m.rng_bytes_test_a (to_u64 n) }

abbrev pub add_test_b : ℤ → Metrics → Metrics
add_test_b n m = record m { rng_bytes_test_b = add64 m.rng_bytes_test_b (to_u64 n) }

abbrev pub no_metrics : Metrics
no_metrics = record {
  rng_bytes_generated = 0;
  rng_reseeds = 0;
  rng_bytes_buffered = 0;
  rng_bytes_test_a = 0;
  rng_bytes_test_b = 0;
  http_requests = 0;
  ws_payloads = 0;
}
