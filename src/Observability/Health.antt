-- ===== src/Observability/Health.antt =====
-- `HealthInfo`, `reseedReady` and `healthHandler` of observability.go.
use text.Mathlib.Text.{◌==◌}
use entropy_service.Prelude.{ℕ, Bool, ◌&&◌, String, List, ◌∷◌, [], ◌++◌, if◌then◌else◌}
use entropy_service.Prelude.Int.{ℤ, leb_ℤ}
use entropy_service.Drbg.Generator.{Process, Drbg}
use entropy_service.Drbg.Metadata.{
  Metadata, HeaderValue, literal, milliseconds, get_metadata, write_headers,
}

-- The buffer fields of the struct are never set.
pub record HealthInfo : Type 0 where
  pub status : String
  pub ready : Bool
  pub version : String
  pub source : String
  pub drbg : String
  pub reseed_age_ms : ℤ
  pub reseed_interval_ms : ℤ
  pub reseed_size_bits : ℤ
  pub max_reseed_age_ms : ℤ
  pub last_reseed_at : ℕ
  pub reseed_failures_total : ℕ
  pub last_reseed_error : String

unfoldable pub reseed_ready : Metadata → ℤ → Bool
reseed_ready meta max_age = (meta.last_reseed_error == "") && leb_ℤ meta.reseed_age max_age

-- A response: its status code, its headers in the order they are set, and its body.
pub record Response : Type 0 where
  pub code : ℕ
  pub headers : List (String × HeaderValue)
  pub body : HealthInfo

module _ {Stream : Type 0} where
  unfoldable pub health_handler : Process → ℕ → ℤ → Drbg Stream → Response
  unfolding reseed_ready get_metadata write_headers
  health_handler p now max_age d =
      let meta = get_metadata p now d in
      let ready = reseed_ready meta max_age in
      record {
        code = if ready then 200 else 503;
        headers =
            write_headers p now d
            ++ (("Content-Type", literal "application/json")
                ∷ ("Cache-Control", literal "no-store")
                ∷ []);
        body = record {
          status = if ready then "ok" else "degraded";
          ready = ready;
          version = meta.version;
          source = meta.source;
          drbg = meta.drbg;
          reseed_age_ms = milliseconds meta.reseed_age;
          reseed_interval_ms = meta.reseed_interval_ms;
          reseed_size_bits = meta.reseed_size_bits;
          max_reseed_age_ms = milliseconds max_age;
          last_reseed_at = meta.last_reseed_at;
          reseed_failures_total = meta.reseed_failures_total;
          last_reseed_error = meta.last_reseed_error;
        };
      }
