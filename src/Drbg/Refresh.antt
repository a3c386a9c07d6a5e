-- ===== src/Drbg/Refresh.antt =====
-- What a refresh makes of the private generator of a connection.
use entropy_service.Prelude.{
  ℕ, ◌+◌, ◌≤◌, ◌≡◌, refl, true, false, some, none, Option, List, ◌++◌, arith, length, take, drop,
  [],
}
use entropy_service.Prelude.Int.{pos}
use entropy_service.Metrics.{add_bytes_generated}
use entropy_service.Prelude.Outcome.{Outcome, ok}
use entropy_service.Drbg.Algorithm.{Algorithm, Error, is_supported, parse_algorithm}
use entropy_service.Drbg.Cipher.{Cipher, Documented, new_cipher_stream}
use entropy_service.Drbg.Generator.{
  Process, Drbg, max_bytes_per_key, count_instance, fresh, key_of, nonce_of, install,
  new_drbg_with_algorithm, read_locked, read, installed,
}
use entropy_service.Drbg.Invariant.{IsValid, reseed-IsValid, new_drbg_with_algorithm-IsValid}
use entropy_service.Drbg.Reads.{read-ok, reseed-ok, new_cipher_stream-ok}
use entropy_service.Drbg.Connection.{Reader, refresh, adopt}

module _ {Stream : Type 0} where
  -- A child that is there is valid and open, and of the parent's algorithm.
  abbrev pub IsFit : Drbg Stream → Option (Drbg Stream) → Type 0
  IsFit parent none = Unit {0}
  IsFit parent (some d) = IsValid d × (d.closed ≡ false) × (d.algorithm ≡ parent.algorithm)

  -- The parent after it gave a seed of 64 bytes.
  abbrev pub drawn : Drbg Stream → Stream → Drbg Stream
  drawn parent s = record parent { cipher = some s; generated = parent.generated + 64 }

module _ {Block Stream : Type 0} (c : Cipher Block Stream) (doc : Documented c) where
  new_drbg-ok :
      (p : Process) (now : ℕ) (seed : List ℕ) (a : Algorithm)
      → is_supported a ≡ true
      → 32 ≤ length seed
      → (s : Stream) × (new_drbg_with_algorithm c p now seed a
          ≡ (count_instance p, ok (fresh c a (c.sha512 seed) now s)))
        × (new_cipher_stream c a (key_of (c.sha512 seed)) (nonce_of (c.sha512 seed)) ≡ ok s)
  unfolding new_drbg_with_algorithm install parse_algorithm
  new_drbg-ok p now seed a sup h =
      let (s, e) = new_cipher_stream-ok c doc a (c.sha512 seed) sup (doc.digest_length seed) in
      (s, ground (arith, e), e)

  read_locked-ok :
      (p : Process) (d : Drbg Stream)
      → IsValid d
      → d.closed ≡ false
      → d.generated + 64 ≤ max_bytes_per_key
      → (out : List ℕ) × (s : Stream) × (read_locked c p 64 d
          ≡ (record p { metrics = add_bytes_generated (pos 64) p.metrics }, drawn d s, ok out))
        × (length out ≡ 64)
  unfolding read
  read_locked-ok p d v op h = read-ok c doc p 64 d v op h

  -- What the old generator, if there is one, puts before the seed: its key.
  abbrev pub old_key : Option (Drbg Stream) → List ℕ
  old_key none = []
  old_key (some d) = d.key

  -- A generator that has given nothing since it was keyed, by the digest of the old key and a seed.
  abbrev pub Keyed : List ℕ → Option (Drbg Stream) → Drbg Stream → Type 0
  Keyed seed old child =
      let h = c.sha512 (old_key old ++ seed) in
      (child.key ≡ take 32 h)
      × (child.nonce ≡ take 16 (drop 32 h))
      × (child.generated ≡ 0)
      × ((s : Stream) × (child.cipher ≡ some s)
          × (new_cipher_stream c child.algorithm (take 32 h) (take 16 (drop 32 h)) ≡ ok s))

  -- What a refresh leaves in the reader: a child that is keyed by the seed.
  abbrev pub Refreshed :
      List ℕ
      → Stream
      → Drbg Stream
      → Process × Drbg Stream × Reader Stream × Outcome Error (Unit {0})
      → Reader Stream
      → Type 0
  Refreshed seed s parent result r =
      (p' : Process) × (child : Drbg Stream) × (result
        ≡ (p', drawn parent s, record r { child = some child; epoch = parent.reseed_epoch }, ok tt))
      × IsFit parent (some child)
      × Keyed seed r.child child

  adopt-Refreshed :
      (now : ℕ) (p : Process) (parent : Drbg Stream) (s : Stream) (r : Reader Stream)
      (seed : List ℕ)
      → (child : Option (Drbg Stream)) → r.child ≡ child
      → IsValid parent
      → IsFit parent child
      → 32 ≤ length seed
      → Refreshed seed s parent (adopt c now p (drawn parent s) r parent.reseed_epoch seed child) r
  adopt-Refreshed now p parent s r seed none e v fit h =
      let (t, made, keyed) = new_drbg-ok p now seed parent.algorithm v.supported h in
      (
        count_instance p,
        fresh c parent.algorithm (c.sha512 seed) now t,
        rw made,
        (
          rw made at (new_drbg_with_algorithm-IsValid c doc p now seed parent.algorithm),
          refl,
          refl,
        ),
        rw e (refl, refl, refl, (t, refl, keyed)),
      )
  adopt-Refreshed now p parent s r seed (some d) e v fit h =
      let (t, done, keyed) = reseed-ok c doc now seed d fit.0 fit.1 h in
      (
        p,
        installed c d (c.sha512 (d.key ++ seed)) now t,
        rw done,
        (rw done at (reseed-IsValid c doc now seed d fit.0), fit.1, fit.2),
        rw e (refl, refl, refl, (t, refl, keyed)),
      )

  pub refresh-Refreshed :
      (now : ℕ) (p : Process) (parent : Drbg Stream) (r : Reader Stream)
      → IsValid parent
      → parent.closed ≡ false
      → parent.generated + 64 ≤ max_bytes_per_key
      → IsFit parent r.child
      → (seed : List ℕ) × (s : Stream) × (read c p 64 parent ≡ (
        record p { metrics = add_bytes_generated (pos 64) p.metrics },
        drawn parent s,
        ok seed,
      ))
        × Refreshed seed s parent (refresh c now p parent r) r
  unfolding refresh read
  refresh-Refreshed now p parent r v op room fit =
      let (seed, s, e, len) = read_locked-ok p parent v op room in
      (
        seed,
        s,
        e,
        rw e (
            adopt-Refreshed now (record p { metrics = add_bytes_generated (pos 64) p.metrics })
              parent s r seed r.child refl v fit (omega (arith, len))),
      )
