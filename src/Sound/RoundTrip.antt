-- ===== src/Sound/RoundTrip.antt =====
-- What a WAV file says about its samples.
use entropy_service.Prelude.{
  ℕ, ◌+◌, ◌*◌, ◌/◌, ◌%◌, ◌<◌, ◌≡◌, refl, ap, Option, none, some, List, [], ◌∷◌, arith, length, drop,
  if◌then◌else◌, ◌&&◌, ◌==◌ as eq_ℕ,
}
use entropy_service.Sound.Wav.{put_samples, wav_header, wav_file}

-- A reader of such files, from their definition: the sizes of the two chunks must be those of the
-- file, and the samples are what follows the header.
abbrev pub get_u16 : ℕ → ℕ → ℕ
get_u16 a b = a + 256 * b

abbrev pub get_u32 : ℕ → ℕ → ℕ → ℕ → ℕ
get_u32 a b c d = a + 256 * b + 65536 * c + 16777216 * d

pub get_samples : List ℕ → Option (List ℕ)
get_samples [] = some []
get_samples (a ∷ []) = none
get_samples (a ∷ b ∷ bytes) = elim (get_samples bytes) [
  | none ↦ none
  | some samples ↦ some (get_u16 a b ∷ samples)
]

abbrev pub EachU16 : List ℕ → Type 0
EachU16 [] = Unit {0}
EachU16 (n ∷ ns) = (n < 65536) × EachU16 ns

get_samples-put_samples :
    (samples : List ℕ) → EachU16 samples → get_samples (put_samples samples) ≡ some samples
unfolding get_samples put_samples
get_samples-put_samples [] h = refl
get_samples-put_samples (n ∷ ns) h =
    rw (get_samples-put_samples ns h.1) (ap (λ (x : ℕ). some (x ∷ ns)) (omega (arith, h.0)))

abbrev first_u32 : List ℕ → ℕ
first_u32 (a ∷ b ∷ c ∷ d ∷ rest) = get_u32 a b c d
first_u32 bytes = 0

abbrev pub u32_at : ℕ → List ℕ → ℕ
u32_at offset bytes = first_u32 (drop offset bytes)

unfoldable pub read_wav : List ℕ → Option (List ℕ)
unfolding get_samples
read_wav bytes =
    if eq_ℕ (u32_at 4 bytes + 8) (length bytes) && eq_ℕ (u32_at 40 bytes + 44) (length bytes)
    then get_samples (drop 44 bytes)
    else none

get_u32-put_u32 :
    (n : ℕ)
    → n < 4294967296
    → get_u32 (n % 256) (n / 256 % 256) (n / 65536 % 256) (n / 16777216 % 256) ≡ n
get_u32-put_u32 n h = omega (arith, h)

length-put_samples : (samples : List ℕ) → length (put_samples samples) ≡ length samples * 2
unfolding put_samples
length-put_samples [] = refl
length-put_samples (n ∷ ns) = omega (arith, length-put_samples ns)

pub length-wav_file : (samples : List ℕ) → length (wav_file samples) ≡ 44 + length samples * 2
unfolding wav_file wav_header
length-wav_file samples = omega (arith, length-put_samples samples)

riff_size :
    (samples : List ℕ)
    → length samples * 2 < 4294967200
    → u32_at 4 (wav_file samples) + 8 ≡ length (wav_file samples)
unfolding wav_file wav_header
riff_size samples h = omega (arith, length-put_samples samples, h)

data_size :
    (samples : List ℕ)
    → length samples * 2 < 4294967200
    → u32_at 40 (wav_file samples) + 44 ≡ length (wav_file samples)
unfolding wav_file wav_header
data_size samples h = omega (arith, length-put_samples samples, h)

samples_at : (samples : List ℕ) → drop 44 (wav_file samples) ≡ put_samples samples
unfolding wav_file wav_header
samples_at samples = refl

-- When every sample is a 16-bit word and the file's size fits its header, a reader that trusts the
-- two sizes of the header only if they agree with the file gets back exactly the samples.
pub read_wav-wav_file :
    (samples : List ℕ)
    → EachU16 samples
    → length samples * 2 < 4294967200
    → read_wav (wav_file samples) ≡ some samples
unfolding read_wav
read_wav-wav_file samples words fits = ground (
  arith,
  riff_size samples fits,
  data_size samples fits,
  samples_at samples,
  get_samples-put_samples samples words,
)
