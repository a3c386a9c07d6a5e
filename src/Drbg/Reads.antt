-- ===== src/Drbg/Reads.antt =====
-- What reading and reseeding a generator give, on every branch.
use native.Mathlib.Nat.{zero-add, suc-add}
use text.Mathlib.Text.{◌==◌}
use entropy_service.Prelude.{
  ℕ, zero, suc, ◌+◌, ◌≤◌, ◌<◌, ◌≡◌, ap, ◌⊎◌, inl, inr, true, false, some, List, ◌∷◌, ◌++◌,
  if◌then◌else◌, arith, length, take, drop, replicate, length-take, length-replicate,
}
use entropy_service.Prelude.Int.{pos}
use entropy_service.Prelude.Outcome.{ok, err}
use entropy_service.Prelude.Word.{add64}
use entropy_service.Metrics.{add_bytes_generated}
use entropy_service.Drbg.Algorithm.{
  Algorithm, chacha20, closed_pipe, output_limit, short_reseed, is_supported,
}
use entropy_service.Drbg.Cipher.{Cipher, Documented, new_cipher_stream}
use entropy_service.Drbg.Generator.{
  Process, Drbg, max_bytes_per_key, key_of, nonce_of, reseed, read_locked, read,
}
use entropy_service.Drbg.Invariant.{IsValid, length-key_of, length-nonce_of}

replicate-add {ℓ} :
    {A : Type ℓ} (n m : ℕ) (a : A) → replicate (n + m) a ≡ replicate n a ++ replicate m a
replicate-add zero m a = rw zero-add
replicate-add (suc n) m a = rw suc-add (ap (◌∷◌ a) (replicate-add n m a))

module _ {Block Stream : Type 0} (c : Cipher Block Stream) (doc : Documented c) where
  -- A valid, open generator with room for n more bytes gives n bytes and counts them; nothing
  -- else of it changes but its stream.
  pub read-ok :
      (p : Process) (n : ℕ) (d : Drbg Stream)
      → IsValid d
      → d.closed ≡ false
      → d.generated + n ≤ max_bytes_per_key
      → (out : List ℕ) × (s : Stream) × (read c p n d ≡ (
        record p { metrics = add_bytes_generated (pos n) p.metrics },
        record d { cipher = some s; generated = d.generated + n },
        ok out,
      ))
        × (length out ≡ n)
  unfolding read read_locked
  read-ok p n d v op h = elim v.phase [
    | inl (_, _, s, e) ↦
        let (out, s') = c.xor_key_stream s (replicate n 0) in
        (
          out,
          s',
          ground (arith, e),
          ground (arith, doc.stream_length s (replicate n 0), length-replicate {A = ℕ} n 0),
        )
    | inr (shut, _, _) ↦ absurd (cc (shut, op))
  ]

  -- A valid generator that is closed refuses every read, and one without room for n bytes asks
  -- for a reseed; the generator, the counters and the metrics are left as they were.
  pub read-refused :
      (p : Process) (n : ℕ) (d : Drbg Stream)
      → IsValid d
      → (d.closed ≡ true) ⊎ (max_bytes_per_key < d.generated + n)
      → read c p n d ≡ (p, d, err (if d.closed then closed_pipe else output_limit))
  unfolding read read_locked
  read-refused p n d v h = ground arith

  -- When a valid generator has room for n + m bytes, reading n bytes and then m more gives the
  -- bytes of one read of n + m, and leaves the same generator and the same count of generated
  -- bytes.
  pub read-split :
      (p p' p'' : Process) (n m : ℕ) (d d' d'' : Drbg Stream) (out out' : List ℕ)
      → IsValid d
      → d.generated + n + m ≤ max_bytes_per_key
      → read c p n d ≡ (p', d', ok out)
      → read c p' m d' ≡ (p'', d'', ok out')
      → read c p (n + m) d ≡ (p'', d'', ok (out ++ out'))
  unfolding read read_locked
  read-split p p' p'' n m d d' d'' out out' v room first second = elim v.phase [
    | inl (op, _, s, e) ↦
        ground (
          arith,
          e,
          replicate-add {A = ℕ} n m 0,
          doc.stream_split s (replicate n 0) (replicate m 0),
        )
    | inr (shut, _, _) ↦ ground (arith, shut)
  ]

  -- A supported backend accepts the key and the nonce that a digest gives.
  pub new_cipher_stream-ok :
      (a : Algorithm) (h : List ℕ)
      → is_supported a ≡ true
      → length h ≡ 64
      → (s : Stream) × (new_cipher_stream c a (key_of h) (nonce_of h) ≡ ok s)
  unfolding new_cipher_stream
  new_cipher_stream-ok a h sup e =
      let (block, accepted) = doc.accepts_aes (key_of h) (length-key_of h e) in
      let (stream, accepted') =
        doc.accepts_chacha20 (key_of h) (take 12 (nonce_of h)) (length-key_of h e)
          (omega (arith, length-take 12 (nonce_of h), length-nonce_of h e)) in
      (
        (if a == chacha20 then stream else c.new_ctr block (nonce_of h)),
        ground (arith, accepted, accepted'),
      )

  -- A seed of 32 bytes or more is accepted by every valid, open generator: the new key and nonce
  -- are those of the digest of the old key followed by the seed, the stream is the one that the
  -- cipher package makes of them, the byte budget starts again, the clock's time is remembered, the
  -- epoch and the count of reseeds go up by one, up to 2 ^ 64, the last error is cleared, and
  -- nothing else changes.
  pub reseed-ok :
      (now : ℕ) (seed : List ℕ) (d : Drbg Stream)
      → IsValid d
      → d.closed ≡ false
      → 32 ≤ length seed
      → let h = c.sha512 (d.key ++ seed) in
        (s : Stream) × (reseed c now seed d ≡ (
          record d {
            key = take 32 h;
            nonce = take 16 (drop 32 h);
            cipher = some s;
            generated = 0;
            reseeded = now;
            reseeds = add64 d.reseeds 1;
            last_reseed_error = "";
            reseed_epoch = add64 d.reseed_epoch 1;
          },
          ok tt,
        ))
        × (new_cipher_stream c d.algorithm (take 32 h) (take 16 (drop 32 h)) ≡ ok s)
  unfolding reseed
  reseed-ok now seed d v op h =
      let (s, e) =
        new_cipher_stream-ok d.algorithm (c.sha512 (d.key ++ seed)) v.supported
          (doc.digest_length (d.key ++ seed)) in
      (s, ground (arith, e), e)

  -- Any other reseed is refused, and leaves the generator as it was.
  pub reseed-refused :
      (now : ℕ) (seed : List ℕ) (d : Drbg Stream)
      → (d.closed ≡ true) ⊎ (length seed < 32)
      → reseed c now seed d ≡ (d, err (if d.closed then closed_pipe else short_reseed))
  unfolding reseed
  reseed-refused now seed d h = ground arith
