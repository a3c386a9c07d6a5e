-- ===== src/Client/Frames/Laws.antt =====
-- Which messages become frames, and that the pool keeps its buffers.
use entropy_service.Prelude.{
  ℕ, ◌≤◌, ◌<◌, ◌≡◌, ◌≢◌, ◌⊎◌, true, false, none, List, [], ◌∷◌, ◌++◌, arith, length, length-append,
  length-take, length-replicate, drop, length-drop,
}
use entropy_service.Prelude.Outcome.{Outcome, ok, err}
use entropy_service.Client.Frames.Lease.{
  FrameError, Pool, StreamFrame, Message, acquire, fill_frame, release_lease, new_lease,
  read_stream_frame,
}

abbrev pub EachSized : ℕ → List (List ℕ) → Type 0
EachSized size [] = Unit {0}
EachSized size (buffer ∷ buffers) = (length buffer ≡ size) × EachSized size buffers

-- At most as many buffers as the capacity, all of the requested size.
pub record IsSized (size : ℕ) (pool : Pool) : Type 0 where
  pub within : length pool.buffers ≤ pool.capacity
  pub each : EachSized size pool.buffers

EachSized-append :
    (size : ℕ) (xs : List (List ℕ)) (b : List ℕ)
    → EachSized size xs
    → length b ≡ size
    → EachSized size (xs ++ (b ∷ []))
EachSized-append size [] b h e = (e, tt)
EachSized-append size (x ∷ xs) b h e = (h.0, EachSized-append size xs b h.1 e)

release_lease-IsSized :
    (size : ℕ) (pool : Pool) (b : List ℕ)
    → IsSized size pool
    → length b ≡ size
    → IsSized size (release_lease pool (new_lease b)).0
unfolding release_lease
release_lease-IsSized size pool b v e =
    ground
      (arith, EachSized-append size pool.buffers b v.each e, length-append pool.buffers (b ∷ []))

acquire-IsSized :
    (size : ℕ) (pool : Pool)
    → IsSized size pool
    → IsSized size (acquire size pool).0 × (length (acquire size pool).1 ≡ size)
acquire-IsSized size pool v = ground (arith, length-replicate {A = ℕ} size 0)

-- A frame of the requested size, or an error.
abbrev pub IsExactFrame : ℕ → Message → Outcome FrameError StreamFrame → Type 0
IsExactFrame size message (ok frame) =
    (frame.bytes ≡ message.bytes)
    × (length message.bytes ≡ size)
    × (message.binary ≡ true)
    × (message.failure ≡ none)
IsExactFrame size message (err e) =
    (length message.bytes ≢ size) ⊎ ((message.binary ≡ false) ⊎ (message.failure ≢ none))

fill_frame-IsExactFrame :
    (size : ℕ) (pool : Pool) (buffer : List ℕ) (message : Message)
    → message.binary ≡ true
    → length buffer ≡ size
    → IsSized size pool
    → IsSized size (fill_frame (pool, buffer) message).0
      × IsExactFrame size message (fill_frame (pool, buffer) message).1
fill_frame-IsExactFrame size pool buffer message bin e v = grind (
  arith,
  release_lease-IsSized size pool,
  length-take (length buffer) message.bytes,
  length-append message.bytes (drop (length message.bytes) buffer),
  length-drop (length message.bytes) buffer,
)

-- With a positive requested size, and a pool within its capacity whose buffers have that size,
-- exactly the binary messages of that size that end without an error become frames, with their
-- own bytes, and the pool keeps within its capacity and holds only buffers of that size.
pub read_stream_frame-IsExactFrame :
    (size : ℕ) (pool : Pool) (message : Message)
    → 0 < size
    → IsSized size pool
    → let (pool', result) = read_stream_frame size pool (ok message) in
      IsSized size pool' × IsExactFrame size message result
unfolding read_stream_frame
read_stream_frame-IsExactFrame size pool message h v = ground (
  arith,
  acquire-IsSized size pool v,
  fill_frame-IsExactFrame size (acquire size pool).0 (acquire size pool).1 message,
)
