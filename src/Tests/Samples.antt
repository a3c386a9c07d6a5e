-- ===== src/Tests/Samples.antt =====
-- A concrete cipher package and concrete states. The stream is a position, and its key stream is
-- the zero bytes; the digest is the first 64 bytes of its input, padded with zeros.
use text.Mathlib.Text.{◌==◌}
use entropy_service.Prelude.{
  if◌then◌else◌, ℕ, ◌+◌, ◌≡◌, refl, ap, true, false, Option, none, some, String, List, ◌++◌, arith,
  length, take, replicate, length-take, length-append, length-replicate,
}
use entropy_service.Prelude.Int.{ℤ, pos}
use entropy_service.Prelude.Outcome.{ok}
use entropy_service.Metrics.{no_metrics}
use entropy_service.Budget.Defs.{idle_budget}
use entropy_service.Drbg.Cipher.{Cipher, Documented}
use entropy_service.Drbg.Generator.{Process, Drbg}
use entropy_service.Drbg.Invariant.{IsValid}
use entropy_service.Handler.Http.{Server}

abbrev pub digest64 : List ℕ → List ℕ
digest64 xs = take 64 (xs ++ replicate 64 0)

abbrev pub plain_cipher : Cipher (List ℕ) ℕ
plain_cipher = record {
  sha512 = digest64;
  new_chacha20 = λ key nonce. ok 0;
  new_aes = λ key. ok key;
  new_ctr = λ block iv. 0;
  xor_key_stream = λ s xs. (xs, s + length xs);
}

digest64-length : (xs : List ℕ) → length (digest64 xs) ≡ 64
digest64-length xs = omega (
  arith,
  length-take 64 (xs ++ replicate 64 0),
  length-append xs (replicate 64 0),
  length-replicate {A = ℕ} 64 0,
)

pub plain_cipher-Documented : Documented plain_cipher
plain_cipher-Documented = record {
  digest_length = digest64-length;
  accepts_chacha20 = λ key nonce h k. (0, refl);
  accepts_aes = λ key h. (key, refl);
  stream_length = λ s xs. refl;
  stream_split = λ s xs ys. ap (λ (n : ℕ). (xs ++ ys, n)) (omega (arith, length-append xs ys));
}

abbrev pub process : Process
process = record { active_drbg = pos 1; peak_drbg = pos 1; metrics = no_metrics }

-- A generator that has given 100 bytes.
abbrev pub root : Drbg ℕ
root = record {
  key = replicate 32 7;
  nonce = replicate 16 9;
  cipher = some 100;
  algorithm = "chacha20";
  closed = false;
  counted = true;
  generated = 100;
  reseeded = 5;
  reseeds = 0;
  reseed_failures = 1;
  last_reseed_error = "unexpected EOF";
  reseed_epoch = 0;
  version = "1";
  source = "/dev/urandom";
  algo = "ChaCha20";
  reseed_interval = pos 15000000000;
  reseed_size_bits = pos 2048;
}

pub root-IsValid : IsValid root
root-IsValid = ground arith

abbrev pub server : Server ℕ
server = record {
  process = process;
  root = root;
  http = idle_budget 2 1000000 128;
  ws = idle_budget 2 1000000 128;
}

abbrev pub seed32 : List ℕ
seed32 = replicate 32 1

-- `strconv.Atoi` of two numerals.
abbrev pub small_atoi : String → Option ℤ
small_atoi s = if s == "16" then some (pos 16) else if s == "3" then some (pos 3) else none
