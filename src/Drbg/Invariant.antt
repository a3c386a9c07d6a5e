-- ===== src/Drbg/Invariant.antt =====
-- The invariant of a generator, and that every method of drbg.go keeps it.
use entropy_service.Prelude.{
  ℕ, ◌≤◌, ◌≡◌, ◌⊎◌, true, false, Option, none, some, String, List, [], ◌∷◌, ◌++◌, arith, length,
  drop, length-take, length-drop, length-replicate,
}
use entropy_service.Prelude.Int.{ℤ, pos_part}
use entropy_service.Prelude.Outcome.{Outcome, ok, err}
use entropy_service.Drbg.Algorithm.{Algorithm, Error, is_supported, parse_algorithm}
use entropy_service.Drbg.Cipher.{Cipher, Documented}
use entropy_service.Drbg.Generator.{
  Process, Drbg, max_bytes_per_key, key_of, nonce_of, install, new_drbg_with_algorithm, reseed,
  read_locked, read, derive, construct_child, new_connection_drbg, close, record_reseed_failure,
  set_metadata,
}

module _ {Stream : Type 0} where
  -- An open generator has a cipher and counts as an instance; a closed one has neither.
  abbrev pub IsOpen : Drbg Stream → Type 0
  IsOpen d = (d.closed ≡ false) × (d.counted ≡ true) × (s : Stream) × (d.cipher ≡ some s)

  abbrev pub IsShut : Drbg Stream → Type 0
  IsShut d = (d.closed ≡ true) × (d.counted ≡ false) × (d.cipher ≡ none)

  pub record IsValid (d : Drbg Stream) : Type 0 where
    pub key_length : length d.key ≡ 32
    pub nonce_length : length d.nonce ≡ 16
    pub within_budget : d.generated ≤ max_bytes_per_key
    pub supported : is_supported d.algorithm ≡ true
    pub phase : IsOpen d ⊎ IsShut d

  abbrev pub EachValid : Outcome Error (Drbg Stream) → Type 0
  EachValid (ok d) = IsValid d
  EachValid (err e) = Unit {0}

pub length-key_of : (h : List ℕ) → length h ≡ 64 → length (key_of h) ≡ 32
length-key_of h e = omega (arith, length-take 32 h)

pub length-nonce_of : (h : List ℕ) → length h ≡ 64 → length (nonce_of h) ≡ 16
length-nonce_of h e = omega (arith, length-take 16 (drop 32 h), length-drop 32 h)

module _ {Block Stream : Type 0} (c : Cipher Block Stream) (doc : Documented c) where
  pub install-IsValid :
      (p : Process) (now : ℕ) (h : List ℕ) (a : Algorithm)
      → length h ≡ 64
      → is_supported a ≡ true
      → EachValid (install c p now h a).1
  unfolding install
  install-IsValid p now h a e sup = ground (arith, length-key_of h e, length-nonce_of h e)

  pub new_drbg_with_algorithm-IsValid :
      (p : Process) (now : ℕ) (seed : List ℕ) (a : Algorithm)
      → EachValid (new_drbg_with_algorithm c p now seed a).1
  unfolding new_drbg_with_algorithm parse_algorithm
  new_drbg_with_algorithm-IsValid p now seed a =
      ground (arith, install-IsValid p now (c.sha512 seed) a (doc.digest_length seed))

  pub reseed-IsValid :
      (now : ℕ) (seed : List ℕ) (d : Drbg Stream) → IsValid d → IsValid (reseed c now seed d).0
  unfolding reseed
  reseed-IsValid now seed d v = ground (
    arith,
    length-key_of (c.sha512 (d.key ++ seed)) (doc.digest_length (d.key ++ seed)),
    length-nonce_of (c.sha512 (d.key ++ seed)) (doc.digest_length (d.key ++ seed)),
  )

  pub read_locked-IsValid :
      (p : Process) (n : ℕ) (d : Drbg Stream) → IsValid d → IsValid (read_locked c p n d).1
  unfolding read_locked
  read_locked-IsValid p n d v = ground arith

  pub read-IsValid : (p : Process) (n : ℕ) (d : Drbg Stream) → IsValid d → IsValid (read c p n d).1
  unfolding read
  read-IsValid p n d v = read_locked-IsValid p n d v

  derive-IsValid : (p : Process) (n : ℤ) (d : Drbg Stream) → IsValid d → IsValid (derive c p n d).1
  unfolding derive
  derive-IsValid p n d v = ground (arith, read-IsValid p (pos_part n) d v)

  construct_child-IsValid :
      (now : ℕ) (r : Process × Drbg Stream × Outcome Error (List ℕ))
      → IsValid r.1
      → IsValid (construct_child c now r).1 × EachValid (construct_child c now r).2
  construct_child-IsValid now (p, d, err e) v = (v, tt)
  construct_child-IsValid now (p, d, ok seed) v =
      (v, new_drbg_with_algorithm-IsValid p now seed d.algorithm)

  -- Deriving a child keeps the parent valid, and the child starts valid.
  pub new_connection_drbg-IsValid :
      (p : Process) (now : ℕ) (d : Drbg Stream)
      → IsValid d
      → IsValid (new_connection_drbg c p now d).1 × EachValid (new_connection_drbg c p now d).2
  unfolding new_connection_drbg
  new_connection_drbg-IsValid p now d v =
      construct_child-IsValid now (read c p 64 d) (read-IsValid p 64 d v)

module _ {Stream : Type 0} where
  pub close-IsValid : (p : Process) (d : Drbg Stream) → IsValid d → IsValid (close p d).1
  unfolding close
  close-IsValid p d v = ground (arith, length-replicate {A = ℕ} 32 0, length-replicate {A = ℕ} 16 0)

  pub record_reseed_failure-IsValid :
      (e : Option String) (d : Drbg Stream) → IsValid d → IsValid (record_reseed_failure e d)
  unfolding record_reseed_failure
  record_reseed_failure-IsValid none d v = v
  record_reseed_failure-IsValid (some m) d v = ground arith

-- The methods of a generator, with their arguments.
pub data Call : Type 0 where
  reads : ℕ → Call
  reseeds : ℕ → List ℕ → Call
  derives : ℤ → Call
  closes : Call
  fails : Option String → Call
  describes : String → String → ℤ → ℤ → Call

module _ {Block Stream : Type 0} (c : Cipher Block Stream) (doc : Documented c) where
  pub call : Process × Drbg Stream → Call → Process × Drbg Stream
  call (p, d) (reads n) = let (p', d', _) = read c p n d in (p', d')
  call (p, d) (reseeds now seed) = (p, (reseed c now seed d).0)
  call (p, d) (derives n) = let (p', d', _) = derive c p n d in (p', d')
  call (p, d) closes = close p d
  call (p, d) (fails e) = (p, record_reseed_failure e d)
  call (p, d) (describes v s i b) = (p, set_metadata v s "" i b d)

  pub calls : Process × Drbg Stream → List Call → Process × Drbg Stream
  calls s [] = s
  calls s (x ∷ xs) = calls (call s x) xs

  call-IsValid : (s : Process × Drbg Stream) (x : Call) → IsValid s.1 → IsValid (call s x).1
  unfolding call set_metadata
  call-IsValid (p, d) (reads n) v = read-IsValid c doc p n d v
  call-IsValid (p, d) (reseeds now seed) v = reseed-IsValid c doc now seed d v
  call-IsValid (p, d) (derives n) v = derive-IsValid c doc p n d v
  call-IsValid (p, d) closes v = close-IsValid p d v
  call-IsValid (p, d) (fails e) v = record_reseed_failure-IsValid e d v
  call-IsValid (p, d) (describes x s i b) v = ground arith

  -- Whatever methods are called, in whatever order, a valid generator stays valid: its key has 32
  -- bytes and its nonce 16, it never generates more than the per-key limit, its algorithm is
  -- supported, and it has a cipher and counts as an instance exactly until it is closed.
  pub calls-IsValid :
      (xs : List Call) (s : Process × Drbg Stream) → IsValid s.1 → IsValid (calls s xs).1
  unfolding calls
  calls-IsValid [] s v = v
  calls-IsValid (x ∷ xs) s v = calls-IsValid xs (call s x) (call-IsValid s x v)
