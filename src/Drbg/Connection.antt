-- ===== src/Drbg/Connection.antt =====
-- cmd/entropy-server/internal/drbg/connection.go: the private generator of a connection, made on
-- its first read and reseeded from the shared parent. The parent is an argument, since connections
-- share it; the reader's state is its child, the epoch that the child was seeded in, and a flag.
use entropy_service.Prelude.{
  ℕ, ◌-◌, ◌+◌, ◌%◌, Bool, true, false, ◌||◌, not, Option, none, some, List, [], if◌then◌else◌, ltb,
  ◌==◌,
}
use entropy_service.Prelude.Word.{u64_mod}
use entropy_service.Prelude.Outcome.{Outcome, ok, err}
use entropy_service.Drbg.Algorithm.{Error, closed_pipe, connection_limit, nil_dereference}
use entropy_service.Drbg.Cipher.{Cipher}
use entropy_service.Drbg.Generator.{
  Process, Drbg, max_bytes_per_key, new_drbg_with_algorithm, reseed, read_locked, read, close,
}

-- `ConnectionReader`, less its parent.
pub record Reader (Stream : Type 0) : Type 0 where
  pub child : Option (Drbg Stream)
  pub epoch : ℕ
  pub closed : Bool

module _ {Stream : Type 0} where
  -- `NewConnectionReader`.
  abbrev pub new_reader : Reader Stream
  new_reader = record { child = none; epoch = 0; closed = false }

  -- The test for a refresh: no child, another epoch, or no room for n bytes under this key.
  abbrev pub is_stale : ℕ → ℕ → ℕ → Option (Drbg Stream) → Bool
  is_stale n parent_epoch epoch none = true
  is_stale n parent_epoch epoch (some child) =
      not (epoch == parent_epoch)
      || ltb ((u64_mod + max_bytes_per_key - child.generated) % u64_mod) n

  abbrev pub must_refresh : ℕ → Drbg Stream → Reader Stream → Bool
  must_refresh n parent r = is_stale n parent.reseed_epoch r.epoch r.child

  -- `Close`.
  unfoldable pub close_reader : Process → Reader Stream → Process × Reader Stream
  close_reader p r = if r.closed then (p, r) else elim r.child [
    | none ↦ (p, record r { closed = true })
    | some child ↦ ((close p child).0, record r { child = none; closed = true })
  ]

module _ {Block Stream : Type 0} (c : Cipher Block Stream) where
  -- What a call leaves: the process, the parent, the reader and the result.
  abbrev pub After : Type 0 → Type 0
  After A = Process × Drbg Stream × Reader Stream × Outcome Error A

  -- The new child with the epoch of its seed, or the constructor's error.
  abbrev pub after_new :
      Drbg Stream → Reader Stream → ℕ → Process × Outcome Error (Drbg Stream) → After (Unit {0})
  after_new parent r epoch (p, err e) = (p, parent, r, err e)
  after_new parent r epoch (p, ok child) =
      (p, parent, record r { child = some child; epoch = epoch }, ok tt)

  -- The reseeded child with the epoch of its seed; after a refused reseed the old epoch stays.
  abbrev pub after_reseed :
      Process
      → Drbg Stream
      → Reader Stream
      → ℕ
      → Drbg Stream × Outcome Error (Unit {0})
      → After (Unit {0})
  after_reseed p parent r epoch (child, err e) = (p, parent, record r { child = some child }, err e)
  after_reseed p parent r epoch (child, ok _) =
      (p, parent, record r { child = some child; epoch = epoch }, ok tt)

  -- The seed makes the child, or reseeds the one that is there.
  abbrev pub adopt :
      ℕ
      → Process
      → Drbg Stream
      → Reader Stream
      → ℕ
      → List ℕ
      → Option (Drbg Stream)
      → After (Unit {0})
  adopt now p parent r epoch seed none =
      after_new parent r epoch (new_drbg_with_algorithm c p now seed parent.algorithm)
  adopt now p parent r epoch seed (some child) =
      after_reseed p parent r epoch (reseed c now seed child)

  abbrev pub seeded :
      ℕ → Reader Stream → Process × Drbg Stream × Outcome Error (List ℕ) → After (Unit {0})
  seeded now r (p, parent, err e) = (p, parent, r, err e)
  seeded now r (p, parent, ok seed) = adopt now p parent r parent.reseed_epoch seed r.child

  -- `connectionSeed`, then the adoption: seed and epoch are taken under one lock.
  unfoldable pub refresh : ℕ → Process → Drbg Stream → Reader Stream → After (Unit {0})
  refresh now p parent r = seeded now r (read_locked c p 64 parent)

  abbrev pub after_read :
      Drbg Stream → Reader Stream → Process × Drbg Stream × Outcome Error (List ℕ) → After (List ℕ)
  after_read parent r (p, child, out) = (p, parent, record r { child = some child }, out)

  -- The read of the child. A child stands here after a refresh, and without one Go would panic.
  abbrev pub read_child :
      ℕ → Process → Drbg Stream → Reader Stream → Option (Drbg Stream) → After (List ℕ)
  read_child n p parent r none = (p, parent, r, err nil_dereference)
  read_child n p parent r (some child) = after_read parent r (read c p n child)

  abbrev pub then_read : ℕ → After (Unit {0}) → After (List ℕ)
  then_read n (p, parent, r, err e) = (p, parent, r, err e)
  then_read n (p, parent, r, ok _) = read_child n p parent r r.child

  -- `Read` of a buffer of n bytes.
  unfoldable pub read_connection : ℕ → ℕ → Process → Drbg Stream → Reader Stream → After (List ℕ)
  read_connection now n p parent r =
      if r.closed
      then (p, parent, r, err closed_pipe)
      else if n == 0
      then (p, parent, r, ok [])
      else if ltb max_bytes_per_key n
      then (p, parent, r, err connection_limit)
      else then_read n
          (if must_refresh n parent r then refresh now p parent r else (p, parent, r, ok tt))
