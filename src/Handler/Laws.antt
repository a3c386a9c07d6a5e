-- ===== src/Handler/Laws.antt =====
-- What a byte route leaves behind: the budgets as they began, and a body of the promised length.
use entropy_service.Prelude.{
  ℕ, ◌-◌, ◌≤◌, ◌<◌, ◌≡◌, ◌≢◌, refl, ◌⊎◌, inl, inr, Bool, true, false, Option, String, List, [], ◌∷◌,
  arith, length, length-append, length-replicate, min, replicate,
}
use entropy_service.Prelude.Int.{ℤ, pos, pos_part, ◌≤ℤ◌}
use entropy_service.Prelude.Outcome.{Outcome, ok, err}
use entropy_service.Budget.Defs.{Budget, Refusal, Ticket, release}
use entropy_service.Budget.Http.{http_reservation, http_admit}
use entropy_service.Budget.WebSocket.{ws_byte_reservation, ws_admit}
use entropy_service.Budget.Settles.{SameUse, Settles, http_admit-Settles, ws_admit-Settles}
use entropy_service.Drbg.Algorithm.{Error}
use entropy_service.Drbg.Cipher.{Cipher, Documented}
use entropy_service.Drbg.Generator.{Process, Drbg, read_locked, read, new_connection_drbg}
use entropy_service.Request.Query.{
  Query, QueryError, ClientPrefs, extract_byte_count, extract_prefs,
}
use entropy_service.Handler.Http.{
  Server, Piece, Copied, complete, Reply, bad_request, refused, child_failed, streamed, write_piece,
  copy_n, stream_entropy_response, stream_root, random_of, random_handler, stream_child,
  stream_private, random_bytes_of, random_bytes_handler, admitted,
}
use entropy_service.Handler.Socket.{Tick, SocketReply, socket, socket_of, ws_binary_handler}

-- Either the copy is complete and all the bytes went out, or it is not and fewer did.
abbrev pub Delivers : ℕ → Copied → Type 0
Delivers n out =
    ((out.end ≡ complete) × (length out.sent ≡ n)) ⊎ ((out.end ≢ complete) × (length out.sent < n))

-- What a reply to a request for at most `most` bytes promises and sends.
abbrev pub IsHonestReply : Reply → Type 0
IsHonestReply (bad_request e) = Unit {0}
IsHonestReply (refused r) = Unit {0}
IsHonestReply (child_failed e) = Unit {0}
IsHonestReply (streamed n out) = Delivers (pos_part n) out ⊎ ((n ≤ℤ pos 0) × (out.sent ≡ []))

module _ {Block Stream : Type 0} (c : Cipher Block Stream) (doc : Documented c) where
  abbrev HasLength : ℕ → Process × Drbg Stream × Outcome Error (List ℕ) → Type 0
  HasLength n (p, d, err e) = Unit {0}
  HasLength n (p, d, ok out) = length out ≡ n

  read_some-HasLength : (n : ℕ) (s : Stream) → length (c.xor_key_stream s (replicate n 0)).0 ≡ n
  read_some-HasLength n s =
      omega (arith, doc.stream_length s (replicate n 0), length-replicate {A = ℕ} n 0)

  read-HasLength : (p : Process) (n : ℕ) (d : Drbg Stream) → HasLength n (read c p n d)
  unfolding read read_locked
  read-HasLength p n d = grind (arith, read_some-HasLength)

  write_piece-Delivers :
      (left size : ℕ) (written : Bool)
      → (again : Process → Drbg Stream → Process × Drbg Stream × Copied)
      → (r : Process × Drbg Stream × Outcome Error (List ℕ)) → 0 < left
      → size ≤ left
      → HasLength size r
      → ((p : Process) (d : Drbg Stream) → Delivers (left - size) (again p d).2)
      → Delivers left (write_piece c written again r).2
  write_piece-Delivers left size written again (p, d, err e) pos_left fits h rest =
      inr ((λ x. cc), omega arith)
  write_piece-Delivers left size false again (p, d, ok bytes) pos_left fits h rest =
      inr ((λ x. cc), omega arith)
  write_piece-Delivers left size true again (p, d, ok bytes) pos_left fits h rest =
      elim (rest p d) [
        | inl (e, l) ↦ inl (e, omega (arith, length-append bytes (again p d).2.sent))
        | inr (e, l) ↦ inr (e, omega (arith, length-append bytes (again p d).2.sent))
      ]

  copy_n-Delivers :
      (left : ℕ) (pieces : List Piece) (p : Process) (d : Drbg Stream)
      → Delivers left (copy_n c left pieces p d).2
  unfolding copy_n
  copy_n-Delivers left [] p d = ground arith
  copy_n-Delivers left (piece ∷ pieces) p d = ground (
    arith,
    write_piece-Delivers left (min piece.size left) piece.written
        (copy_n c (left - min piece.size left) pieces) (read c p (min piece.size left) d),
    read-HasLength p (min piece.size left) d,
    copy_n-Delivers (left - min piece.size left) pieces,
  )

  stream_entropy_response-IsHonest :
      (canceled : Bool) (n : ℤ) (pieces : List Piece) (p : Process) (d : Drbg Stream)
      → IsHonestReply (streamed n (stream_entropy_response c canceled n pieces p d).2)
  unfolding stream_entropy_response
  stream_entropy_response-IsHonest canceled n pieces p d =
      ground (arith, copy_n-Delivers (pos_part n) pieces p d)

  -- What a route leaves of the server, and its reply.
  abbrev pub Leaves : Server Stream → Server Stream × Reply → Type 0
  Leaves s r = SameUse s.http r.0.http × (r.0.ws ≡ s.ws) × IsHonestReply r.1

  stream_root-Leaves :
      (canceled : Bool) (n : ℤ) (pieces : List Piece) (s : Server Stream)
      → (r : Budget × Outcome Refusal Ticket) → Settles s.http r
      → Leaves s (stream_root c canceled n pieces (admitted c s r))
  stream_root-Leaves canceled n pieces s (b, err x) h = (h, refl, tt)
  stream_root-Leaves canceled n pieces s (b, ok t) h =
      (h, refl, stream_entropy_response-IsHonest canceled n pieces s.process s.root)

  random_of-Leaves :
      (canceled : Bool) (pieces : List Piece) (s : Server Stream) (q : Outcome QueryError ℤ)
      → Leaves s (random_of c canceled pieces s q)
  random_of-Leaves canceled pieces s (err e) = (ground arith, refl, tt)
  random_of-Leaves canceled pieces s (ok n) =
      stream_root-Leaves canceled n pieces s
        (http_admit canceled s.http (pos (http_reservation n (pos 1))))
        (http_admit-Settles canceled s.http (pos (http_reservation n (pos 1))))

  -- Whatever the request asks, and however its stream ends, the route of the root generator gives
  -- back the admission and the memory that it took, leaves the WebSocket budget alone, and sends
  -- the promised number of bytes when the copy completes and fewer when it does not.
  random_handler-Leaves :
      (atoi : String → Option ℤ) (query : Query) (max_bytes : ℤ) (canceled : Bool)
      → (pieces : List Piece) (s : Server Stream)
      → Leaves s (random_handler c atoi query max_bytes canceled pieces s)
  unfolding random_handler
  random_handler-Leaves atoi query max_bytes canceled pieces s =
      random_of-Leaves canceled pieces s (extract_byte_count atoi query (pos 1024) max_bytes)

  stream_child-Leaves :
      (canceled : Bool) (n : ℤ) (pieces : List Piece) (t : Ticket) (s s' : Server Stream)
      → (r : Process × Drbg Stream × Outcome Error (Drbg Stream))
      → SameUse s.http (release s'.http t).0
      → s'.ws ≡ s.ws
      → Leaves s (stream_child c canceled n pieces t s' r)
  stream_child-Leaves canceled n pieces t s s' (p, root, err e) h k = (h, k, tt)
  stream_child-Leaves canceled n pieces t s s' (p, root, ok child) h k =
      (h, k, stream_entropy_response-IsHonest canceled n pieces p child)

  stream_private-Leaves :
      (canceled : Bool) (now : ℕ) (n : ℤ) (pieces : List Piece) (s : Server Stream)
      → (r : Budget × Outcome Refusal Ticket) → Settles s.http r
      → Leaves s (stream_private c canceled now n pieces (admitted c s r))
  stream_private-Leaves canceled now n pieces s (b, err x) h = (h, refl, tt)
  stream_private-Leaves canceled now n pieces s (b, ok t) h =
      stream_child-Leaves canceled n pieces t s (record s { http = b })
        (new_connection_drbg c s.process now s.root) h refl

  random_bytes_of-Leaves :
      (canceled : Bool) (now : ℕ) (pieces : List Piece) (s : Server Stream)
      → (q : Outcome QueryError ClientPrefs) → Leaves s (random_bytes_of c canceled now pieces s q)
  random_bytes_of-Leaves canceled now pieces s (err e) = (ground arith, refl, tt)
  random_bytes_of-Leaves canceled now pieces s (ok prefs) =
      stream_private-Leaves canceled now prefs.bytes pieces s
        (http_admit canceled s.http (pos (http_reservation prefs.bytes (pos 1))))
        (http_admit-Settles canceled s.http (pos (http_reservation prefs.bytes (pos 1))))

  -- Whatever the request asks, whether or not its private generator can be constructed, and
  -- however its stream ends, the private byte route gives back the admission and the memory that
  -- it took, leaves the WebSocket budget alone, and sends the promised number of bytes when the
  -- copy completes and fewer when it does not.
  pub random_bytes_handler-Leaves :
      (atoi : String → Option ℤ) (query : Query) (max_bytes max_words : ℤ) (has_cookie : Bool)
      → (cookie : Option ClientPrefs) (canceled : Bool) (now : ℕ) (pieces : List Piece)
      → (s : Server Stream)
      → Leaves s (
          random_bytes_handler c atoi query max_bytes max_words has_cookie cookie canceled now
            pieces s)
  unfolding random_bytes_handler
  random_bytes_handler-Leaves atoi query max_bytes max_words has_cookie cookie canceled now pieces
        s =
      random_bytes_of-Leaves canceled now pieces s
        (extract_prefs atoi query max_bytes max_words has_cookie cookie)

module _ {Block Stream : Type 0} (c : Cipher Block Stream) where
  -- What a socket leaves of the server.
  abbrev pub Frees : Server Stream → Server Stream × SocketReply → Type 0
  Frees s r = SameUse s.ws r.0.ws × (r.0.http ≡ s.http)

  socket-Frees :
      (n : ℕ) (ticks : List Tick) (upgrade : Bool) (s : Server Stream)
      → (r : Budget × Outcome Refusal Ticket) → Settles s.ws r
      → Frees s (socket c n ticks upgrade s r)
  socket-Frees n ticks upgrade s (b, err x) h = (h, refl)
  socket-Frees n ticks false s (b, ok t) h = (h, refl)
  socket-Frees n ticks true s (b, ok t) h = (h, refl)

  pub socket_of-Frees :
      (json_frame : Bool) (ticks : List Tick) (upgrade canceled : Bool) (s : Server Stream)
      → (q : Outcome QueryError ℤ) → Frees s (socket_of c json_frame ticks upgrade canceled s q)
  socket_of-Frees json_frame ticks upgrade canceled s (err e) = (ground arith, refl)
  socket_of-Frees json_frame ticks upgrade canceled s (ok n) =
      socket-Frees (pos_part n) ticks upgrade s
        (ws_admit canceled s.ws (pos (ws_byte_reservation n json_frame)))
        (ws_admit-Settles canceled s.ws (pos (ws_byte_reservation n json_frame)))

  -- However a binary WebSocket is refused, fails to upgrade, is served or ends, its admission and
  -- its memory are given back, and the HTTP budget is left alone.
  pub ws_binary_handler-Frees :
      (atoi : String → Option ℤ) (query : Query) (default_quantity max_bytes : ℤ)
      → (canceled upgrade : Bool) (ticks : List Tick) (s : Server Stream)
      → Frees s (ws_binary_handler c atoi query default_quantity max_bytes canceled upgrade ticks s)
  unfolding ws_binary_handler
  ws_binary_handler-Frees atoi query default_quantity max_bytes canceled upgrade ticks s =
      socket_of-Frees false ticks upgrade canceled s
        (extract_byte_count atoi query default_quantity max_bytes)
