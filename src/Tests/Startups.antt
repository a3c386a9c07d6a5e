-- ===== src/Tests/Startups.antt =====
-- A start, a remembered preference and a frame.
use Prim.Native.Char.{code}
use entropy_service.Prelude.{
  ℕ, zero, suc, ◌∙◌, ap, if◌then◌else◌, ◌==◌, ◌+◌, ◌≡◌, refl, true, false, Option, none, some,
  String, List, [], ◌∷◌, arith, replicate,
}
use entropy_service.Prelude.Int.{ℤ, pos, negsuc}
use entropy_service.Prelude.Outcome.{ok}
use entropy_service.Request.Query.{Query, ClientPrefs, compact, extract_prefs, values_of}
use entropy_service.Request.Cookie.{CookieCodec, DecodesEncoded, set_prefs_cookie, get_prefs_cookie}
use entropy_service.Request.Remembers.{sent_back, extract_prefs-remembers}
use entropy_service.Handler.Frame.{FramePackages, Writer, write_byte_frame}
use entropy_service.Handler.FrameLaws.{Writes, write_byte_frame-Writes}
use entropy_service.Startup.Root.{Machine}
use entropy_service.Tests.Samples.{small_atoi}

-- A machine whose every path opens, with an instruction that counts.
abbrev machine : Machine ℕ String String ℕ
machine = record {
  open_at = λ w path. (w, ok path);
  reads = λ reader. replicate 40 3 ∷ replicate 40 5 ∷ [];
  seed_instruction = λ s. (s + 1, ok s);
  random_instruction = λ s. (s + 1, ok s);
  rdrand_available = true;
}

-- A codec that writes a number as so many strokes and a comma.
abbrev strokes : ℕ → String → String
strokes zero s = String.◌∷◌ "," s
strokes (suc n) s = String.◌∷◌ "I" (strokes n s)

abbrev written : List ℕ → String
written [] = ""
written (n ∷ ns) = strokes n (written ns)

abbrev one_more : List ℕ → List ℕ
one_more [] = []
one_more (n ∷ ns) = suc n ∷ ns

abbrev read_back : String → List ℕ
read_back String.[] = []
read_back (String.◌∷◌ c s) =
    let rest = read_back s in if code c == code "I" then one_more rest else 0 ∷ rest

read_back-strokes : (n : ℕ) (s : String) → read_back (strokes n s) ≡ n ∷ read_back s
read_back-strokes zero s = refl
read_back-strokes (suc n) s = ap one_more (read_back-strokes n s)

read_back-written : (ns : List ℕ) → read_back (written ns) ≡ ns
read_back-written [] = refl
read_back-written (n ∷ ns) = read_back-strokes n (written ns) ∙ ap (◌∷◌ n) (read_back-written ns)

abbrev sign : ℤ → ℕ
sign (pos n) = 0
sign (negsuc n) = 1

abbrev size : ℤ → ℕ
size (pos n) = n
size (negsuc n) = n

abbrev signed : ℕ → ℕ → ℤ
signed zero n = pos n
signed (suc m) n = negsuc n

signed-sign : (x : ℤ) → signed (sign x) (size x) ≡ x
signed-sign (pos n) = refl
signed-sign (negsuc n) = refl

abbrev numbers : ClientPrefs → List ℕ
numbers prefs =
    sign prefs.bytes
    ∷ size prefs.bytes
    ∷ sign prefs.refresh
    ∷ size prefs.refresh
    ∷ sign prefs.words
    ∷ size prefs.words
    ∷ []

abbrev from_numbers : List ℕ → Option ClientPrefs
from_numbers (a ∷ b ∷ c ∷ d ∷ e ∷ f ∷ []) =
    some (record { bytes = signed a b; refresh = signed c d; words = signed e f })
from_numbers ns = none

from_numbers-numbers : (prefs : ClientPrefs) → from_numbers (numbers prefs) ≡ some prefs
from_numbers-numbers prefs = λ i. some (record {
  bytes = signed-sign prefs.bytes i;
  refresh = signed-sign prefs.refresh i;
  words = signed-sign prefs.words i;
})

abbrev codec : CookieCodec
codec = record {
  marshal = λ prefs. some (numbers prefs);
  unmarshal = from_numbers;
  encode = written;
  decode = λ s. some (read_back s);
}

codec-DecodesEncoded : DecodesEncoded codec
codec-DecodesEncoded = record {
  marshals = λ prefs. (numbers prefs, refl, from_numbers-numbers prefs);
  decodes = λ bytes. ap some (read_back-written bytes);
}

abbrev asks : Query
asks = ("bytes", "16" ∷ []) ∷ ("words", "3" ∷ []) ∷ []

abbrev remembered : ClientPrefs
remembered = record { bytes = pos 16; refresh = pos 500; words = pos 3 }

extract_prefs-remembers_example :
    extract_prefs small_atoi []
      (pos 1000)
      (pos 20)
      true
      (get_prefs_cookie codec (sent_back (set_prefs_cookie codec remembered)))
    ≡ ok remembered
unfolding extract_prefs values_of
extract_prefs-remembers_example =
    extract_prefs-remembers codec codec-DecodesEncoded small_atoi asks (pos 1000) (pos 20) false
      none {prefs = remembered} (omega arith) (omega arith) refl

abbrev packages : FramePackages
packages = record {
  sha256 = λ bytes. replicate 32 0;
  hex = λ bytes. "00";
  base64 = λ bytes. "AA";
  json_data = λ a b d. 1 ∷ [];
  json_hash = λ a n. 2 ∷ [];
}

abbrev willing : Writer
willing = record { begins = true; first_write = true; second_write = true; closes = true }

write_byte_frame-Writes_example :
    Writes packages
      (λ bytes. refl)
      willing
      (7 ∷ 8 ∷ [])
      compact
      (write_byte_frame packages willing (7 ∷ 8 ∷ []) compact)
write_byte_frame-Writes_example =
    write_byte_frame-Writes packages (λ bytes. refl) willing (7 ∷ 8 ∷ []) compact
