-- ===== src/Drbg/Metadata.antt =====
-- `Metadata`, `GetMetadata` and `WriteHeaders` of cmd/entropy-server/internal/drbg/drbg.go. Times
-- are nanoseconds; the decimal printing of a number is the library's.
use entropy_service.Prelude.{ℕ, ◌+◌, ◌/◌, String, List, [], ◌∷◌}
use entropy_service.Prelude.Int.{ℤ, pos, negsuc, ◌-ℤ◌}
use entropy_service.Drbg.Generator.{Process, Drbg, reseed_age}

-- The buffer fields of the struct are never set.
pub record Metadata : Type 0 where
  pub version : String
  pub source : String
  pub drbg : String
  pub reseed_age : ℤ
  pub last_reseed_at : ℕ
  pub reseed_interval_ms : ℤ
  pub reseed_size_bits : ℤ
  pub drbg_instance_cnt : ℤ
  pub reseeds_total : ℕ
  pub reseed_failures_total : ℕ
  pub last_reseed_error : String

-- `Duration.Milliseconds` rounds towards zero.
abbrev pub milliseconds : ℤ → ℤ
milliseconds (pos n) = pos (n / 1000000)
milliseconds (negsuc n) = pos 0 -ℤ pos ((n + 1) / 1000000)

-- The value of a header: a text, or a number that is printed in decimal.
pub data HeaderValue : Type 0 where
  literal : String → HeaderValue
  decimal : ℤ → HeaderValue

module _ {Stream : Type 0} where
  unfoldable pub get_metadata : Process → ℕ → Drbg Stream → Metadata
  get_metadata p now d = record {
    version = d.version;
    source = d.source;
    drbg = d.algo;
    reseed_age = reseed_age now d;
    last_reseed_at = d.reseeded;
    reseed_interval_ms = milliseconds d.reseed_interval;
    reseed_size_bits = d.reseed_size_bits;
    drbg_instance_cnt = p.active_drbg;
    reseeds_total = d.reseeds;
    reseed_failures_total = d.reseed_failures;
    last_reseed_error = d.last_reseed_error;
  }

  unfoldable pub write_headers : Process → ℕ → Drbg Stream → List (String × HeaderValue)
  unfolding get_metadata
  write_headers p now d =
      let meta = get_metadata p now d in
      ("X-RNG-Version", literal meta.version)
      ∷ ("X-RNG-Source", literal meta.source)
      ∷ ("X-RNG-DRBG", literal meta.drbg)
      ∷ ("X-RNG-Reseed-Age-ms", decimal (milliseconds meta.reseed_age))
      ∷ ("X-RNG-Reseed-Interval-ms", decimal meta.reseed_interval_ms)
      ∷ ("X-RNG-Reseed-Size-bits", decimal meta.reseed_size_bits)
      ∷ ("X-RNG-Entropy-Buffered-kB", literal "0")
      ∷ ("X-RNG-Entropy-Buffered-%", literal "0")
      ∷ []
