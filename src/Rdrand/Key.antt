-- ===== src/Rdrand/Key.antt =====
-- Bytes under a key: eight bytes of each word, the lowest first.
use native.Mathlib.Nat.{div-div-eq-div-mul}
use Prim.Native.Nat.{bit_xor}
use entropy_service.Prelude.{
  ◌%◌, ◌^◌, sym, ◌+◌, ℕ, zero, suc, ◌/◌, ◌≡◌, refl, ap, List, [], ◌∷◌, ◌++◌, length, take, drop,
}
use entropy_service.Rdrand.Mixer.{xor_word}

-- The eight bytes of a word, the lowest first.
pub bytes_of_word : ℕ → List ℕ
bytes_of_word w =
    w % 256
    ∷ w / 2 ^ 8 % 256
    ∷ w / 2 ^ 16 % 256
    ∷ w / 2 ^ 24 % 256
    ∷ w / 2 ^ 32 % 256
    ∷ w / 2 ^ 40 % 256
    ∷ w / 2 ^ 48 % 256
    ∷ w / 2 ^ 56 % 256
    ∷ []

unfoldable pub key_of_words : List ℕ → List ℕ
key_of_words [] = []
key_of_words (w ∷ words) = bytes_of_word w ++ key_of_words words

-- A key laid over bytes, byte by byte; bytes that the key does not reach stay as they are.
unfoldable pub xor_key : List ℕ → List ℕ → List ℕ
xor_key bytes [] = bytes
xor_key [] (k ∷ key) = []
xor_key (b ∷ bytes) (k ∷ key) = bit_xor b k ∷ xor_key bytes key

-- Eight bytes need one word, and what is left over needs one more.
abbrev pub words_for : List ℕ → ℕ
words_for bytes = (length bytes + 7) / 8

-- The low bytes of a word, as it is shifted.
pub low_bytes : ℕ → ℕ → List ℕ
low_bytes zero w = []
low_bytes (suc k) w = w % 256 ∷ low_bytes k (w / 256)

pub bytes_of_word-eq : (w : ℕ) → bytes_of_word w ≡ low_bytes 8 w
unfolding bytes_of_word low_bytes
bytes_of_word-eq w = simp div-div-eq-div-mul

pub length-xor_key : (bytes key : List ℕ) → length (xor_key bytes key) ≡ length bytes
unfolding xor_key
length-xor_key bytes [] = refl
length-xor_key [] (k ∷ key) = refl
length-xor_key (b ∷ bytes) (k ∷ key) = ap suc (length-xor_key bytes key)

xor_key-nil : (key : List ℕ) → xor_key [] key ≡ []
unfolding xor_key
xor_key-nil [] = refl
xor_key-nil (k ∷ key) = refl

pub xor_word-xor_key :
    (k w : ℕ) (bytes key : List ℕ)
    → xor_key bytes (low_bytes k w ++ key)
      ≡ xor_word k w (take k bytes) ++ xor_key (drop k bytes) key
unfolding xor_key xor_word low_bytes
xor_word-xor_key zero w bytes key = refl
xor_word-xor_key (suc k) w [] key = sym (xor_key-nil key)
xor_word-xor_key (suc k) w (b ∷ bytes) key =
    ap (◌∷◌ (bit_xor b (w % 256))) (xor_word-xor_key k (w / 256) bytes key)
