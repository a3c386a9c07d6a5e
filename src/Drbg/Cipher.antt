-- ===== src/Drbg/Cipher.antt =====
-- What the generator uses of crypto/sha512, crypto/aes, crypto/cipher and
-- golang.org/x/crypto/chacha20, and `newCipherStream` over it. Bytes are numbers.
use text.Mathlib.Text.{◌==◌}
use entropy_service.Prelude.{ℕ, ◌≡◌, List, ◌++◌, length, take, if◌then◌else◌}
use entropy_service.Prelude.Outcome.{Outcome, ok, err, ◌>>=◌}
use entropy_service.Drbg.Algorithm.{Algorithm, chacha20, aes_256_ctr, Error, unsupported_algorithm}

pub record Cipher (Block Stream : Type 0) : Type 0 where
  -- `sha512.Sum512`
  pub sha512 : List ℕ → List ℕ
  -- `chacha20.NewUnauthenticatedCipher(key, nonce)`
  pub new_chacha20 : List ℕ → List ℕ → Outcome Error Stream
  -- `aes.NewCipher(key)` and `cipher.NewCTR(block, iv)`
  pub new_aes : List ℕ → Outcome Error Block
  pub new_ctr : Block → List ℕ → Stream
  -- `XORKeyStream(p, p)`: the bytes that it leaves in p, and the stream that has moved on.
  pub xor_key_stream : Stream → List ℕ → List ℕ × Stream

-- Documented behaviour: a digest has 64 bytes; keys of 32 bytes, and nonces of 12 for ChaCha20, are
-- accepted; a stream writes as many bytes as it reads, and several calls give what one call on the
-- concatenation would.
pub record Documented {Block Stream : Type 0} (c : Cipher Block Stream) : Type 0 where
  pub digest_length : (xs : List ℕ) → length (c.sha512 xs) ≡ 64
  pub accepts_chacha20 :
      (key nonce : List ℕ)
      → length key ≡ 32
      → length nonce ≡ 12
      → (s : Stream) × (c.new_chacha20 key nonce ≡ ok s)
  pub accepts_aes : (key : List ℕ) → length key ≡ 32 → (b : Block) × (c.new_aes key ≡ ok b)
  pub stream_length : (s : Stream) (xs : List ℕ) → length (c.xor_key_stream s xs).0 ≡ length xs
  pub stream_split :
      (s : Stream) (xs ys : List ℕ)
      → let (out, s') = c.xor_key_stream s xs in
        let (out', s'') = c.xor_key_stream s' ys in
        c.xor_key_stream s (xs ++ ys) ≡ (out ++ out', s'')

unfoldable pub new_cipher_stream :
    {Block Stream : Type 0}
    → Cipher Block Stream
    → Algorithm
    → List ℕ
    → List ℕ
    → Outcome Error Stream
new_cipher_stream c algorithm key nonce =
    if algorithm == chacha20
    then c.new_chacha20 key (take 12 nonce)
    else if algorithm == aes_256_ctr
    then (c.new_aes key >>= λ block. ok (c.new_ctr block nonce))
    else err (unsupported_algorithm algorithm)
