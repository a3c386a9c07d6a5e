-- ===== src/Config/Laws.antt =====
-- What a configuration that `Validate` accepts is good for.
use text.Mathlib.Text.{◌==◌}
use entropy_service.Prelude.{
  ℕ, ◌*◌, ◌<◌, ◌≡◌, ◌∙◌, ◌↔◌, ap, true, ◌||◌, Bool-cases, inl, inr, String, arith,
}
use entropy_service.Prelude.Int.{ℤ, pos, ◌≤ℤ◌, pos_part}
use entropy_service.Prelude.Word.{max_int64}
use entropy_service.Prelude.Outcome.{ok, >>=_passed}
use entropy_service.Drbg.Algorithm.{is_supported, parse_algorithm}
use entropy_service.Config.Validate.{
  Config, ConfigError, max_milliseconds, max_memory_mib, validate_timing, check_sizes, check_budget,
  check_drbg, resolve_age, validate, ws_budget, http_budget, default_config, default_drbg_for_arch,
}

abbrev Within : ℕ → ℕ → ℤ → Type 0
Within low high n = (pos low ≤ℤ n) × (n ≤ℤ pos high)

pub record HasTimes (c : Config) : Type 0 where
  pub reseed : Within 1 60000 c.reseed_ms
  pub refresh : Within 1 max_milliseconds c.refresh_rate_ms
  pub colors : Within 1 max_milliseconds c.refresh_color_ms
  pub page : Within 1 max_milliseconds c.page_refresh_ms
  pub age : Within 0 max_milliseconds c.max_reseed_age_ms

pub record HasSizes (c : Config) : Type 0 where
  pub reseed_size : Within 32 1048576 c.reseed_size
  pub bytes : Within 1 33554432 c.max_bytes
  pub words : pos 1 ≤ℤ c.max_words
  pub fingerprint : Within 1 33554432 c.bytes_fingerprint

pub record HasBudget (at_once mib : ℤ) : Type 0 where
  pub count : pos 1 ≤ℤ at_once
  pub memory : Within 1 max_memory_mib mib

pub record IsUsable (c : Config) : Type 0 where
  pub times : HasTimes c
  pub sizes : HasSizes c
  pub ws : HasBudget c.ws_max_connections c.ws_memory_mib
  pub http : HasBudget c.http_max_requests c.http_memory_mib
  pub drbg : is_supported c.drbg ≡ true

timing_iff : (c : Config) → (validate_timing c ≡ ok tt) ↔ HasTimes c
unfolding validate_timing
timing_iff c = ((λ h. ground arith), (λ h. ground arith))

sizes_iff : (c : Config) → (check_sizes c ≡ ok tt) ↔ HasSizes c
sizes_iff c = ((λ h. ground arith), (λ h. ground arith))

budget_iff : (e : ConfigError) (n mib : ℤ) → (check_budget e n mib ≡ ok tt) ↔ HasBudget n mib
budget_iff e n mib = ((λ h. ground arith), (λ h. ground arith))

drbg_iff : (name : String) → (check_drbg name ≡ ok tt) ↔ (is_supported name ≡ true)
unfolding parse_algorithm
drbg_iff name = ((λ h. ground arith), (λ h. ground arith))

-- A configuration is accepted exactly when every value is in its range, both budgets are positive
-- with memory that fits an int64 in bytes, and the backend is supported.
pub validate_iff : (c : Config) → (validate c ≡ ok (resolve_age c)) ↔ IsUsable c
unfolding validate
validate_iff c = (
  (λ e.
      let (_, e1, r1) = >>=_passed (validate_timing c) _ e in
      let (_, e2, r2) = >>=_passed (check_sizes c) _ r1 in
      let (_, e3, r3) =
        >>=_passed (check_budget ws_budget c.ws_max_connections c.ws_memory_mib) _ r2 in
      let (_, e4, r4) =
        >>=_passed (check_budget http_budget c.http_max_requests c.http_memory_mib) _ r3 in
      let (_, e5, r5) = >>=_passed (check_drbg c.drbg) _ r4 in
      record {
        times = (timing_iff c).0 e1;
        sizes = (sizes_iff c).0 e2;
        ws = (budget_iff ws_budget c.ws_max_connections c.ws_memory_mib).0 e3;
        http = (budget_iff http_budget c.http_max_requests c.http_memory_mib).0 e4;
        drbg = (drbg_iff c.drbg).0 e5;
      }),
  (λ u. rw (
    (timing_iff c).1 u.times,
    (sizes_iff c).1 u.sizes,
    (budget_iff ws_budget c.ws_max_connections c.ws_memory_mib).1 u.ws,
    (budget_iff http_budget c.http_max_requests c.http_memory_mib).1 u.http,
    (drbg_iff c.drbg).1 u.drbg,
  )),
)

resolved-IsUsable :
    (c : Config)
    → IsUsable c
    → IsUsable (resolve_age c) × (pos 1 ≤ℤ (resolve_age c).max_reseed_age_ms)
resolved-IsUsable c u = ground arith

-- An accepted configuration has a positive maximum age, and validating it again changes nothing.
pub validate-resolved :
    (c : Config)
    → IsUsable c
    → (pos 1 ≤ℤ (resolve_age c).max_reseed_age_ms) × (validate (resolve_age c) ≡ ok (resolve_age c))
validate-resolved c u =
    let (usable, positive) = resolved-IsUsable c u in
    (positive, (validate_iff (resolve_age c)).1 usable ∙ ap ok (resolved_once c positive))
  where
    resolved_once :
        (d : Config)
        → pos 1 ≤ℤ (resolve_age d).max_reseed_age_ms
        → resolve_age (resolve_age d) ≡ resolve_age d
    resolved_once d h = ground arith

default_drbg-supported : (goarch : String) → is_supported (default_drbg_for_arch goarch) ≡ true
unfolding default_drbg_for_arch
default_drbg-supported goarch =
    elim (Bool-cases (goarch == "arm" || goarch == "arm64" || goarch == "riscv64")) [
      | inl e ↦ rw e
      | inr e ↦ rw e
    ]

default_config-IsUsable : (goarch : String) → IsUsable (default_config goarch)
unfolding default_config
default_config-IsUsable goarch = record {
  times = omega arith;
  sizes = omega arith;
  ws = omega arith;
  http = omega arith;
  drbg = default_drbg-supported goarch;
}

-- The flags' defaults are accepted on every architecture.
default_config-accepted :
    (goarch : String) → validate (default_config goarch) ≡ ok (resolve_age (default_config goarch))
default_config-accepted goarch =
    (validate_iff (default_config goarch)).1 (default_config-IsUsable goarch)

-- The memory of an accepted budget is a number of bytes below the largest int64.
pub memory-lt-max_int64 : (c : Config) → IsUsable c → pos_part c.ws_memory_mib * 1048576 < max_int64
memory-lt-max_int64 c u = ground (arith, u.ws.memory.1)
