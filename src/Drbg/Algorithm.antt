-- ===== src/Drbg/Algorithm.antt =====
-- cmd/entropy-server/internal/drbg/algorithm.go: names of backends, and the errors of the package.
use text.Mathlib.Text.{◌==◌}
use entropy_service.Prelude.{String, Bool, ◌||◌, if◌then◌else◌}
use entropy_service.Prelude.Outcome.{Outcome, ok, err}

-- A Go string type: any string can be an `Algorithm`, and two are supported.
abbrev pub Algorithm : Type 0
Algorithm = String

abbrev pub chacha20 : Algorithm
chacha20 = "chacha20"

abbrev pub aes_256_ctr : Algorithm
aes_256_ctr = "aes-256-ctr"

-- Errors of the package. `external` is one of a cipher package, and `nil_dereference` a panic.
pub data Error : Type 0 where
  unsupported_drbg unsupported_algorithm external : String → Error
  short_seed short_reseed closed_pipe output_limit connection_limit derive_size : Error
  nil_dereference : Error

abbrev pub is_supported : Algorithm → Bool
is_supported a = a == chacha20 || a == aes_256_ctr

unfoldable pub parse_algorithm : String → Outcome Error Algorithm
parse_algorithm name = if is_supported name then ok name else err (unsupported_drbg name)

-- `String`, the name shown to users.
unfoldable pub show : Algorithm → String
show a = if a == chacha20 then "ChaCha20" else if a == aes_256_ctr then "AES-256-CTR" else a
