-- ===== src/Drbg/Private.antt =====
-- What a connection's private stream promises: fresh after every reseed of the parent, and never
-- short of output while the parent can give a seed.
use entropy_service.Prelude.{
  ℕ, ◌+◌, ◌≤◌, ◌<◌, ◌≡◌, refl, ◌⊎◌, inl, inr, true, false, some, none, Option, Bool-cases, List,
  arith, length, if◌then◌else◌,
}
use entropy_service.Prelude.Int.{pos}
use entropy_service.Metrics.{add_bytes_generated}
use entropy_service.Prelude.Outcome.{Outcome, ok}
use entropy_service.Drbg.Algorithm.{Error}
use entropy_service.Drbg.Cipher.{Cipher, Documented}
use entropy_service.Drbg.Generator.{Process, Drbg, max_bytes_per_key, read}
use entropy_service.Drbg.Invariant.{IsValid, read-IsValid}
use entropy_service.Drbg.Reads.{read-ok}
use entropy_service.Drbg.Connection.{
  Reader, is_stale, must_refresh, refresh, then_read, read_connection, read_child,
}
use entropy_service.Drbg.Refresh.{IsFit, drawn, Keyed, Refreshed, refresh-Refreshed}

module _ {Block Stream : Type 0} (c : Cipher Block Stream) (doc : Documented c) where
  -- A read that succeeds: n bytes that the child gives, which stays fit, in the parent's epoch.
  abbrev pub Served :
      ℕ
      → Drbg Stream
      → Drbg Stream
      → Drbg Stream
      → Reader Stream
      → Process × Drbg Stream × Reader Stream × Outcome Error (List ℕ)
      → Type 0
  Served n child0 parent parent' r result =
      (p0 p' : Process) × (child : Drbg Stream) × (out : List ℕ) × (result
        ≡ (p', parent', record r { child = some child; epoch = parent.reseed_epoch }, ok out))
      × (read c p0 n child0 ≡ (p', child, ok out))
      × (length out ≡ n)
      × IsFit parent (some child)

  read_child-Served :
      (n : ℕ) (p : Process) (parent parent' : Drbg Stream) (r : Reader Stream) (child : Drbg Stream)
      → IsFit parent (some child)
      → child.generated + n ≤ max_bytes_per_key
      → Served n child parent parent' r (
          read_child c n p parent'
            (record r { child = some child; epoch = parent.reseed_epoch })
            (some child))
  read_child-Served n p parent parent' r child fit room =
      let (out, s, e, len) = read-ok c doc p n child fit.0 fit.1 room in
      (
        p,
        record p { metrics = add_bytes_generated (pos n) p.metrics },
        record child { cipher = some s; generated = child.generated + n },
        out,
        rw e,
        e,
        len,
        (rw e at (read-IsValid c doc p n child fit.0), fit.1, fit.2),
      )

  -- A read after a refresh: the parent gave a seed of 64 bytes, the child is keyed by it, and serves.
  abbrev pub FreshlyServed :
      ℕ
      → Process
      → Drbg Stream
      → Reader Stream
      → Process × Drbg Stream × Reader Stream × Outcome Error (List ℕ)
      → Type 0
  FreshlyServed n p parent r result =
      (seed : List ℕ) × (s : Stream) × (child : Drbg Stream) × (read c p 64 parent
        ≡ (record p { metrics = add_bytes_generated (pos 64) p.metrics }, drawn parent s, ok seed))
      × Keyed c doc seed r.child child
      × Served n child parent (drawn parent s) r result

  -- A read without one: the child that was there, of the parent's epoch, serves.
  abbrev pub StillServed :
      ℕ
      → Process
      → Drbg Stream
      → Reader Stream
      → Process × Drbg Stream × Reader Stream × Outcome Error (List ℕ)
      → Type 0
  StillServed n p parent r result =
      (child : Drbg Stream) × (r.child ≡ some child)
      × (parent.reseed_epoch ≡ r.epoch)
      × Served n child parent parent r result

  Refreshed-Served :
      (n : ℕ) (p : Process) (parent : Drbg Stream) (r : Reader Stream)
      → (result : Process × Drbg Stream × Reader Stream × Outcome Error (Unit {0}))
      → n ≤ max_bytes_per_key
      → ((seed : List ℕ) × (s : Stream) × (read c p 64 parent ≡ (
        record p { metrics = add_bytes_generated (pos 64) p.metrics },
        drawn parent s,
        ok seed,
      ))
          × Refreshed c doc seed s parent result r)
      → FreshlyServed n p parent r (then_read c n result)
  Refreshed-Served n p parent r result h (seed, s, given, (p', child, e, fit, keyed)) =
      let (key, nonce, none_yet, stream) = keyed in
      (
        seed,
        s,
        child,
        given,
        keyed,
        rw e (read_child-Served n p' parent (drawn parent s) r child fit (omega (arith, none_yet))),
      )

  current-Served :
      (n : ℕ) (p : Process) (parent : Drbg Stream) (r : Reader Stream)
      (child : Option (Drbg Stream))
      → r.child ≡ child
      → is_stale n parent.reseed_epoch r.epoch child ≡ false
      → IsFit parent child
      → StillServed n p parent r (then_read c n (p, parent, r, ok tt))
  current-Served n p parent r none e stale fit = cc
  current-Served n p parent r (some d) e stale fit =
      let room : d.generated + n ≤ max_bytes_per_key = ground (arith, fit.0) in
      let epoch : parent.reseed_epoch ≡ r.epoch = ground arith in
      let (out, s, read_e, len) = read-ok c doc p n d fit.0 fit.1 room in
      (
        d,
        e,
        epoch,
        (
          p,
          record p { metrics = add_bytes_generated (pos n) p.metrics },
          record d { cipher = some s; generated = d.generated + n },
          out,
          rw (e, read_e, epoch),
          read_e,
          len,
          (rw read_e at (read-IsValid c doc p n d fit.0), fit.1, fit.2),
        ),
      )

  guards_pass :
      (now n : ℕ) (p : Process) (parent : Drbg Stream) (r : Reader Stream)
      → r.closed ≡ false
      → 0 < n
      → n ≤ max_bytes_per_key
      → read_connection c now n p parent r
        ≡ then_read c n
            (if must_refresh n parent r then refresh c now p parent r else (p, parent, r, ok tt))
  unfolding read_connection
  guards_pass now n p parent r live h small = ground arith

  -- A read of 1 to 2 ^ 38 bytes from an open connection always succeeds, as long as the parent is
  -- valid and open with 64 bytes left, and the child, if there is one, is valid, open and of the
  -- parent's algorithm. It gives the n bytes that a read of the private generator gives, which stays
  -- valid, and the reader remembers the parent's present epoch. When the reader must refresh, the
  -- private generator is keyed by the digest of its old key, if it had one, and of the 64 bytes that
  -- the parent's next read gives, and has given nothing since; otherwise it is the one that was
  -- there, of the parent's epoch, and the parent is left alone.
  pub read_connection-Served :
      (now n : ℕ) (p : Process) (parent : Drbg Stream) (r : Reader Stream)
      → IsValid parent
      → parent.closed ≡ false
      → parent.generated + 64 ≤ max_bytes_per_key
      → IsFit parent r.child
      → r.closed ≡ false
      → 0 < n
      → n ≤ max_bytes_per_key
      → ((must_refresh n parent r ≡ true)
          × FreshlyServed n p parent r (read_connection c now n p parent r))
        ⊎ ((must_refresh n parent r ≡ false)
            × StillServed n p parent r (read_connection c now n p parent r))
  read_connection-Served now n p parent r v op room fit live pos_n small =
      elim (Bool-cases (must_refresh n parent r)) [
        | inl stale ↦ inl (
          stale,
          rw (guards_pass now n p parent r live pos_n small, stale)
              (Refreshed-Served n p parent r (refresh c now p parent r) small
                (refresh-Refreshed c doc now p parent r v op room fit)),
        )
        | inr current ↦ inr (
          current,
          rw (guards_pass now n p parent r live pos_n small, current)
              (current-Served n p parent r r.child refl current fit),
        )
      ]
