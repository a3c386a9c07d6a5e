-- ===== src/Config/Validate.antt =====
-- `Config`, its defaults and `Validate`. Integers are `int` or `int64` on a 64-bit target. Parsing
-- the command line is the flag package's; its defaults are `default_config`.
use text.Mathlib.Text.{◌==◌}
use entropy_service.Prelude.{ℕ, Bool, true, false, ◌||◌, ◌&&◌, String, List, [], ◌∷◌, if◌then◌else◌}
use entropy_service.Prelude.Int.{ℤ, pos, leb_ℤ, ltb_ℤ, max_ℤ, scale_ℤ}
use entropy_service.Prelude.Outcome.{Outcome, ok, err, ◌>>=◌}
use entropy_service.Drbg.Algorithm.{chacha20, aes_256_ctr, parse_algorithm}

abbrev pub min_reseed_bytes : ℕ
min_reseed_bytes = 32

abbrev pub max_reseed_bytes : ℕ
max_reseed_bytes = 1048576

abbrev pub default_reseed_ms : ℕ
default_reseed_ms = 15000

abbrev pub max_reseed_ms : ℕ
max_reseed_ms = 60000

-- `int64(time.Duration(1<<63-1) / time.Millisecond)`
abbrev pub max_milliseconds : ℕ
max_milliseconds = 9223372036854

-- `(1<<63-1)/(1<<20)`, the most MiB whose bytes fit an int64.
abbrev pub max_memory_mib : ℕ
max_memory_mib = 8796093022207

pub record Config : Type 0 where
  pub reseed_ms : ℤ
  pub max_reseed_age_ms : ℤ
  pub reseed_size : ℤ
  pub max_bytes : ℤ
  pub qrng_buffer : ℤ
  pub seed_buffer : ℤ
  pub max_words : ℤ
  pub page_refresh_ms : ℤ
  pub bytes_fingerprint : ℤ
  pub refresh_rate_ms : ℤ
  pub refresh_color_ms : ℤ
  pub http_addr : String
  pub https_addr : String
  pub cert_file : String
  pub key_file : String
  pub log_level : String
  pub device_path : String
  pub drbg : String
  pub enable_https : Bool
  pub require_device : Bool
  pub mix_rdrand : Bool
  pub mix_cpu : Bool
  pub show_debug : Bool
  pub wants_cookie : Bool
  pub ws_max_connections : ℤ
  pub ws_memory_mib : ℤ
  pub http_max_requests : ℤ
  pub http_memory_mib : ℤ

-- The errors of `Validate`, in the order of its checks.
pub data ConfigError : Type 0 where
  timing : String → ConfigError
  reseed_size max_bytes words fingerprint ws_budget http_budget drbg : ConfigError

-- `defaultDRBGForArch`.
unfoldable pub default_drbg_for_arch : String → String
default_drbg_for_arch goarch =
    if goarch == "arm" || goarch == "arm64" || goarch == "riscv64" then chacha20 else aes_256_ctr

-- The flags' defaults.
unfoldable pub default_config : String → Config
unfolding default_drbg_for_arch
default_config goarch = record {
  reseed_ms = pos default_reseed_ms;
  max_reseed_age_ms = pos 0;
  reseed_size = pos 256;
  max_bytes = pos 33554432;
  qrng_buffer = pos 2048;
  seed_buffer = pos 64;
  max_words = pos 20;
  page_refresh_ms = pos 5000;
  bytes_fingerprint = pos 2097152;
  refresh_rate_ms = pos 5000;
  refresh_color_ms = pos 1500;
  http_addr = ":8080";
  https_addr = ":8443";
  cert_file = "cert.pem";
  key_file = "key.pem";
  log_level = "";
  device_path = "/dev/qrandom0";
  drbg = default_drbg_for_arch goarch;
  enable_https = true;
  require_device = false;
  mix_rdrand = false;
  mix_cpu = false;
  show_debug = false;
  wants_cookie = false;
  ws_max_connections = pos 128;
  ws_memory_mib = pos 1024;
  http_max_requests = pos 128;
  http_memory_mib = pos 512;
}

pub record TimingField : Type 0 where
  pub name : String
  pub value : ℤ
  pub low : ℤ
  pub high : ℤ

-- The loop of `validateTiming`: the first field out of range is the error.
unfoldable pub check_fields : List TimingField → Outcome ConfigError (Unit {0})
check_fields [] = ok tt
check_fields (f ∷ fields) =
    if ltb_ℤ f.value f.low || ltb_ℤ f.high f.value then err (timing f.name) else check_fields fields

abbrev pub timing_field : String → ℤ → ℕ → ℕ → TimingField
timing_field name value low high = record {
  name = name;
  value = value;
  low = pos low;
  high = pos high;
}

-- `validateTiming`.
unfoldable pub validate_timing : Config → Outcome ConfigError (Unit {0})
unfolding check_fields
validate_timing cfg = check_fields (
    timing_field "reseed-ms" cfg.reseed_ms 1 max_reseed_ms
    ∷ timing_field "refresh-ms" cfg.refresh_rate_ms 1 max_milliseconds
    ∷ timing_field "refresh-colors-ms" cfg.refresh_color_ms 1 max_milliseconds
    ∷ timing_field "refresh" cfg.page_refresh_ms 1 max_milliseconds
    ∷ timing_field "max-reseed-age" cfg.max_reseed_age_ms 0 max_milliseconds
    ∷ [])

abbrev pub check_sizes : Config → Outcome ConfigError (Unit {0})
check_sizes cfg =
    if ltb_ℤ cfg.reseed_size (pos min_reseed_bytes) || ltb_ℤ (pos max_reseed_bytes) cfg.reseed_size
    then err reseed_size
    else if ltb_ℤ cfg.max_bytes (pos 1) || ltb_ℤ (pos 33554432) cfg.max_bytes
    then err max_bytes
    else if ltb_ℤ cfg.max_words (pos 1)
    then err words
    else if ltb_ℤ cfg.bytes_fingerprint (pos 1) || ltb_ℤ (pos 33554432) cfg.bytes_fingerprint
    then err fingerprint
    else ok tt

-- The two checks of an admission budget: how many at once, and how many MiB.
abbrev pub check_budget : ConfigError → ℤ → ℤ → Outcome ConfigError (Unit {0})
check_budget e at_once mib =
    if ltb_ℤ at_once (pos 1) || ltb_ℤ mib (pos 1) || ltb_ℤ (pos max_memory_mib) mib
    then err e
    else ok tt

abbrev pub check_drbg : String → Outcome ConfigError (Unit {0})
check_drbg name = elim (parse_algorithm name) [ ok _ ↦ ok tt | err _ ↦ err drbg ]

-- The last step: a maximum age of 0 stands for the larger of 1000 and four intervals.
abbrev pub resolve_age : Config → Config
resolve_age cfg =
    if leb_ℤ cfg.max_reseed_age_ms (pos 0) && leb_ℤ (pos 0) cfg.max_reseed_age_ms
    then record cfg { max_reseed_age_ms = max_ℤ (pos 1000) (scale_ℤ 4 cfg.reseed_ms) }
    else cfg

-- `Validate`, of a configuration that is not nil: the error, or the configuration with its age
-- resolved. (The method changes the configuration in place, and only when there is no error.)
unfoldable pub validate : Config → Outcome ConfigError Config
unfolding validate_timing parse_algorithm
validate cfg = validate_timing cfg >>= λ _. check_sizes cfg >>= λ _.
    check_budget ws_budget cfg.ws_max_connections cfg.ws_memory_mib >>= λ _.
    check_budget http_budget cfg.http_max_requests cfg.http_memory_mib >>= λ _.
    check_drbg cfg.drbg >>= λ _. ok (resolve_age cfg)
