-- ===== src/Client/Frames/Lease.antt =====
-- `frameLease`, `streamFrameSize` and `readStreamFrame`. The pool is a channel of a fixed capacity,
-- the oldest buffer first, and a buffer is its contents. A message is what the websocket package
-- gives: an error, or its kind with its bytes and the way they end. The URL is parsed by net/url.
use entropy_service.Prelude.{
  ℕ, Bool, true, false, ◌||◌, Option, none, some, String, List, [], ◌∷◌, ◌++◌, ltb, length, take,
  drop, replicate, if◌then◌else◌, ◌==◌,
}
use entropy_service.Prelude.Int.{ℤ, pos, ltb_ℤ, pos_part}
use entropy_service.Prelude.Outcome.{Outcome, ok, err}

abbrev pub max_entropy_bytes : ℕ
max_entropy_bytes = 33554432

-- The errors of the file, and `external`, one of a package; `end_of_file` and `unexpected_eof`
-- are `io.ReadFull`'s.
pub data FrameError : Type 0 where
  not_once bad_size not_binary end_of_file unexpected_eof too_long : FrameError
  external : String → FrameError

-- `streamFrameSize` of a parsed URL: 0 stands for no byte count.
abbrev pub frame_size_of : Option ℤ → Outcome FrameError ℕ
frame_size_of none = err bad_size
frame_size_of (some n) =
    if ltb_ℤ n (pos 1) || ltb_ℤ (pos max_entropy_bytes) n then err bad_size else ok (pos_part n)

unfoldable pub stream_frame_size : (String → Option ℤ) → Option (List String) → Outcome FrameError ℕ
stream_frame_size atoi none = ok 0
stream_frame_size atoi (some []) = err not_once
stream_frame_size atoi (some (v ∷ [])) = frame_size_of (atoi v)
stream_frame_size atoi (some (v ∷ w ∷ rest)) = err not_once

-- The channel, and its capacity.
pub record Pool : Type 0 where
  pub capacity : ℕ
  pub buffers : List (List ℕ)

-- `frameLease`: its buffer, and whether its `once` has run.
pub record Lease : Type 0 where
  pub buffer : List ℕ
  pub released : Bool

-- `release`: the buffer goes back if there is room, and the lease forgets it.
unfoldable pub release_lease : Pool → Lease → Pool × Lease
release_lease pool lease = if lease.released then (pool, lease) else (
  (if ltb (length pool.buffers) pool.capacity
      then record pool { buffers = pool.buffers ++ (lease.buffer ∷ []) }
      else pool),
  record { buffer = []; released = true },
)

-- `StreamFrame`, less its two measured times.
pub record StreamFrame : Type 0 where
  pub bytes : List ℕ
  pub lease : Option Lease

-- What a message holds, and whether its reader ends with `io.EOF` or another error.
pub record Message : Type 0 where
  pub binary : Bool
  pub bytes : List ℕ
  pub failure : Option String

-- The buffer that the frame is read into: one of the pool, or a new one.
abbrev pub acquire : ℕ → Pool → Pool × List ℕ
acquire size pool = elim pool.buffers [
  | [] ↦ (pool, replicate size 0)
  | buffer ∷ buffers ↦ (record pool { buffers = buffers }, buffer)
]

abbrev pub new_lease : List ℕ → Lease
new_lease buffer = record { buffer = buffer; released = false }

-- A failed read gives the buffer back, with whatever was read into it.
abbrev pub give_back : Pool → List ℕ → FrameError → Pool × Outcome FrameError StreamFrame
give_back pool buffer e = ((release_lease pool (new_lease buffer)).0, err e)

abbrev pub short_of : ℕ → Option String → FrameError
short_of n none = if n == 0 then end_of_file else unexpected_eof
short_of n (some e) = external e

-- The buffer with some bytes read into its front.
abbrev pub read_into : List ℕ → List ℕ → List ℕ
read_into bytes buffer = bytes ++ drop (length bytes) buffer

-- The two `io.ReadFull`s: the buffer must be filled, and nothing may follow but the end.
abbrev pub fill_frame : Pool × List ℕ → Message → Pool × Outcome FrameError StreamFrame
fill_frame (pool, buffer) message =
    if ltb (length message.bytes) (length buffer)
    then give_back pool (read_into message.bytes buffer)
        (short_of (length message.bytes) message.failure)
    else if ltb (length buffer) (length message.bytes)
    then give_back pool (take (length buffer) message.bytes) too_long
    else elim message.failure [
      | none ↦ (pool, ok (record { bytes = message.bytes; lease = some (new_lease message.bytes) }))
      | some e ↦ give_back pool message.bytes (external e)
    ]

-- `ReadMessage`, without a size.
abbrev pub read_unsized : Pool → Message → Pool × Outcome FrameError StreamFrame
read_unsized pool message = elim message.failure [
  | some e ↦ (pool, err (external e))
  | none ↦
      if message.binary
      then (pool, ok (record { bytes = message.bytes; lease = none }))
      else (pool, err not_binary)
]

-- `readStreamFrame`.
unfoldable pub read_stream_frame :
    ℕ → Pool → Outcome String Message → Pool × Outcome FrameError StreamFrame
unfolding release_lease
read_stream_frame size pool (err e) = (pool, err (external e))
read_stream_frame size pool (ok message) =
    if size == 0
    then read_unsized pool message
    else if message.binary
    then fill_frame (acquire size pool) message
    else (pool, err not_binary)
