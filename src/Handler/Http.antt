-- ===== src/Handler/Http.antt =====
-- `streamEntropyResponse` (http_stream.go), `randomHandler` and `randomBytesHandler`. `io.CopyN` is
-- a package's: it asks for the count in pieces of its choice, and each piece says whether the
-- context is canceled before its read, and whether the write behind it succeeds. Headers that only
-- describe the response are left out, the cookie that is set among them.
use entropy_service.Prelude.{
  ℕ, ◌-◌, Bool, true, false, Option, String, List, [], ◌∷◌, ◌++◌, if◌then◌else◌, ◌==◌, min,
}
use entropy_service.Prelude.Int.{ℤ, pos, leb_ℤ, pos_part}
use entropy_service.Prelude.Outcome.{Outcome, ok, err}
use entropy_service.Budget.Defs.{Budget, Refusal, Ticket, release}
use entropy_service.Budget.Http.{http_reservation, http_admit}
use entropy_service.Drbg.Algorithm.{Error}
use entropy_service.Drbg.Cipher.{Cipher}
use entropy_service.Drbg.Generator.{Process, Drbg, read, close, new_connection_drbg}
use entropy_service.Request.Query.{
  Query, QueryError, ClientPrefs, extract_byte_count, extract_prefs,
}

-- What the handlers share: the process, the root generator and the two budgets.
pub record Server (Stream : Type 0) : Type 0 where
  pub process : Process
  pub root : Drbg Stream
  pub http : Budget
  pub ws : Budget

pub record Piece : Type 0 where
  pub canceled : Bool
  pub size : ℕ
  pub written : Bool

-- How a copy ended.
pub data CopyEnd : Type 0 where
  complete canceled_copy write_failed unfinished_copy bad_count : CopyEnd
  read_failed : Error → CopyEnd

-- The bytes that went out, and the end.
pub record Copied : Type 0 where
  pub sent : List ℕ
  pub end : CopyEnd

-- The reply of a handler: an error before the body, or the promised length and the body.
pub data Reply : Type 0 where
  bad_request : QueryError → Reply
  refused : Refusal → Reply
  child_failed : Error → Reply
  streamed : ℤ → Copied → Reply

module _ {Block Stream : Type 0} (c : Cipher Block Stream) where
  abbrev pub CopyState : Type 0
  CopyState = Process × Drbg Stream × Copied

  abbrev pub stopped : Process → Drbg Stream → CopyEnd → CopyState
  stopped p d end = (p, d, record { sent = []; end = end })

  abbrev pub sending : List ℕ → CopyState → CopyState
  sending bytes (p, d, out) = (p, d, record out { sent = bytes ++ out.sent })

  -- The write of a piece, and what follows it.
  abbrev pub write_piece :
      Bool
      → (Process → Drbg Stream → CopyState)
      → Process × Drbg Stream × Outcome Error (List ℕ)
      → CopyState
  write_piece written again (p, d, err e) = stopped p d (read_failed e)
  write_piece false again (p, d, ok bytes) = stopped p d write_failed
  write_piece true again (p, d, ok bytes) = sending bytes (again p d)

  -- `io.CopyN` over `requestEntropyReader`: no piece asks for more than is left.
  unfoldable pub copy_n : ℕ → List Piece → Process → Drbg Stream → CopyState
  copy_n left [] p d = stopped p d (if left == 0 then complete else unfinished_copy)
  copy_n left (piece ∷ pieces) p d =
      let size = min piece.size left in
      if left == 0
      then stopped p d complete
      else if piece.canceled
      then stopped p d canceled_copy
      else write_piece piece.written (copy_n (left - size) pieces) (read c p size d)

  -- `streamEntropyResponse`.
  unfoldable pub stream_entropy_response : Bool → ℤ → List Piece → Process → Drbg Stream → CopyState
  unfolding copy_n
  stream_entropy_response canceled count pieces p d =
      if leb_ℤ count (pos 0)
      then stopped p d bad_count
      else if canceled
      then stopped p d canceled_copy
      else copy_n (pos_part count) pieces p d

  -- The deferred release, at the end of every path.
  abbrev pub released : Server Stream → Ticket → Reply → Server Stream × Reply
  released s t reply = (record s { http = (release s.http t).0 }, reply)

  abbrev pub stream_root :
      Bool → ℤ → List Piece → Server Stream × Outcome Refusal Ticket → Server Stream × Reply
  stream_root canceled n pieces (s, err r) = (s, refused r)
  stream_root canceled n pieces (s, ok t) =
      let (p, d, out) = stream_entropy_response canceled n pieces s.process s.root in
      released (record s { process = p; root = d }) t (streamed n out)

  abbrev pub admitted :
      Server Stream → Budget × Outcome Refusal Ticket → Server Stream × Outcome Refusal Ticket
  admitted s (b, verdict) = (record s { http = b }, verdict)

  abbrev pub random_of :
      Bool → List Piece → Server Stream → Outcome QueryError ℤ → Server Stream × Reply
  random_of canceled pieces s (err e) = (s, bad_request e)
  random_of canceled pieces s (ok n) =
      stream_root canceled n pieces
        (admitted s (http_admit canceled s.http (pos (http_reservation n (pos 1)))))

  -- `randomHandler`.
  unfoldable pub random_handler :
      (String → Option ℤ) → Query → ℤ → Bool → List Piece → Server Stream → Server Stream × Reply
  random_handler atoi query max_bytes canceled pieces s =
      random_of canceled pieces s (extract_byte_count atoi query (pos 1024) max_bytes)

  -- The private generator of a request: constructed, streamed from, and closed on every path.
  abbrev pub stream_child :
      Bool
      → ℤ
      → List Piece
      → Ticket
      → Server Stream
      → Process × Drbg Stream × Outcome Error (Drbg Stream)
      → Server Stream × Reply
  stream_child canceled n pieces t s (p, root, err e) =
      released (record s { process = p; root = root }) t (child_failed e)
  stream_child canceled n pieces t s (p, root, ok child) =
      let (p', child', out) = stream_entropy_response canceled n pieces p child in
      released (record s { process = (close p' child').0; root = root }) t (streamed n out)

  abbrev pub stream_private :
      Bool → ℕ → ℤ → List Piece → Server Stream × Outcome Refusal Ticket → Server Stream × Reply
  stream_private canceled now n pieces (s, err r) = (s, refused r)
  stream_private canceled now n pieces (s, ok t) =
      stream_child canceled n pieces t s (new_connection_drbg c s.process now s.root)

  abbrev pub random_bytes_of :
      Bool → ℕ → List Piece → Server Stream → Outcome QueryError ClientPrefs → Server Stream × Reply
  random_bytes_of canceled now pieces s (err e) = (s, bad_request e)
  random_bytes_of canceled now pieces s (ok prefs) =
      stream_private canceled now prefs.bytes pieces
        (admitted s (http_admit canceled s.http (pos (http_reservation prefs.bytes (pos 1)))))

  -- `randomBytesHandler`.
  unfoldable pub random_bytes_handler :
      (String → Option ℤ)
      → Query
      → ℤ
      → ℤ
      → Bool
      → Option ClientPrefs
      → Bool
      → ℕ
      → List Piece
      → Server Stream
      → Server Stream × Reply
  random_bytes_handler atoi query max_bytes max_words has_cookie cookie canceled now pieces s =
      random_bytes_of canceled now pieces s
        (extract_prefs atoi query max_bytes max_words has_cookie cookie)
