-- ===== src/Lifecycle/Cleanup.antt =====
-- What holds when the cleanup of a WebSocket has returned.
use entropy_service.Prelude.{◌≡◌, ◌⊎◌, refl, inl, inr, Bool, true, false, arith}
use mathlib.Core.Bool.{true≢false}
use entropy_service.Lifecycle.Socket.{
  Reader, reading, canceling, finishing, gone, Callback, armed, started, closed_it, disarmed,
  start_callback, stop_callback, Owner, serving, to_cancel, to_stop, to_close, to_join, returned,
  Socket, new_socket, OwnStep, own, SocketStep, parent_cancels, peer_sends, peer_fails, close_fails,
  reader_cancels, reader_ends, callback_closes, handler_ends, owner_cancels, owner_stops,
  owner_closes, owner_joins, SocketSteps, start, then_step,
}

-- What the callback shows of the context and of the connection.
abbrev pub Follows : Bool → Bool → Callback → Type 0
Follows c k armed = c ≡ false
Follows c k started = c ≡ true
Follows c k closed_it = (c ≡ true) × (k ≡ true)
Follows c k disarmed = true ≡ false

-- How far the cleanup is.
abbrev pub Phase : Bool → Bool → Reader → Owner → Type 0
Phase c k r serving = Unit {0}
Phase c k r to_cancel = Unit {0}
Phase c k r to_stop = c ≡ true
Phase c k r to_close = c ≡ true
Phase c k r to_join = (c ≡ true) × (k ≡ true)
Phase c k r returned = (c ≡ true) × (k ≡ true) × (r ≡ gone)

abbrev pub IsDone : Socket → Type 0
IsDone s = Follows s.canceled s.closed s.callback × Phase s.canceled s.closed s.reader s.owner

Follows-cancel : (c k : Bool) (b : Callback) → Follows c k b → Follows true k (start_callback b)
Follows-cancel c k armed v = refl
Follows-cancel c k started v = refl
Follows-cancel c k closed_it v = (refl, v.1)
Follows-cancel c k disarmed v = v

Follows-close : (c k : Bool) (b : Callback) → Follows c k b → Follows c true b
Follows-close c k armed v = v
Follows-close c k started v = v
Follows-close c k closed_it v = (v.0, refl)
Follows-close c k disarmed v = v

Follows-stop :
    (c k : Bool) (b : Callback) → c ≡ true → Follows c k b → Follows c k (stop_callback b)
Follows-stop c k armed e v = cc (e, v)
Follows-stop c k started e v = v
Follows-stop c k closed_it e v = v
Follows-stop c k disarmed e v = v

Follows-at : (c k : Bool) (b d : Callback) → b ≡ d → Follows c k b → Follows c k d
Follows-at c k b d e v = rw (← e) v

Phase-cancel : (c k : Bool) (r : Reader) (o : Owner) → Phase c k r o → Phase true k r o
Phase-cancel c k r serving v = v
Phase-cancel c k r to_cancel v = v
Phase-cancel c k r to_stop v = refl
Phase-cancel c k r to_close v = refl
Phase-cancel c k r to_join v = (refl, v.1)
Phase-cancel c k r returned v = (refl, v.1, v.2)

Phase-close : (c k : Bool) (r : Reader) (o : Owner) → Phase c k r o → Phase c true r o
Phase-close c k r serving v = v
Phase-close c k r to_cancel v = v
Phase-close c k r to_stop v = v
Phase-close c k r to_close v = v
Phase-close c k r to_join v = (v.0, refl)
Phase-close c k r returned v = (v.0, refl, v.2)

-- A reader that goes on was not gone.
Phase-reader :
    (c k : Bool) (r t : Reader) (o : Owner) → ¬ (r ≡ gone) → Phase c k r o → Phase c k t o
Phase-reader c k r t serving n v = v
Phase-reader c k r t to_cancel n v = v
Phase-reader c k r t to_stop n v = v
Phase-reader c k r t to_close n v = v
Phase-reader c k r t to_join n v = v
Phase-reader c k r t returned n v = absurd (n v.2)

pub Phase-at : (c k : Bool) (r : Reader) (o p : Owner) → o ≡ p → Phase c k r o → Phase c k r p
Phase-at c k r o p e v = rw (← e) v

not_gone : (r t : Reader) → r ≡ t → ¬ (t ≡ gone) → ¬ (r ≡ gone)
not_gone r t e n = rw e n

pub OwnStep-IsDone : {s t : Socket} → OwnStep s t → IsDone s → IsDone t
OwnStep-IsDone (close_fails {s} e f) (b, v) = (
  b,
  Phase-reader s.canceled s.closed s.reader canceling s.owner
      (not_gone s.reader reading e (ground arith)) v,
)
OwnStep-IsDone (reader_cancels {s} e) (b, v) = (
  Follows-cancel s.canceled s.closed s.callback b,
  Phase-cancel s.canceled s.closed finishing s.owner (
      Phase-reader s.canceled s.closed s.reader finishing s.owner
        (not_gone s.reader canceling e (ground arith)) v),
)
OwnStep-IsDone (reader_ends {s} e) (b, v) = (
  b,
  Phase-reader s.canceled s.closed s.reader gone s.owner
      (not_gone s.reader finishing e (ground arith)) v,
)
OwnStep-IsDone (callback_closes {s} e) (b, v) = (
  (Follows-at s.canceled s.closed s.callback started e b, refl),
  Phase-close s.canceled s.closed s.reader s.owner v,
)
OwnStep-IsDone (owner_cancels {s} e) (b, v) =
    (Follows-cancel s.canceled s.closed s.callback b, refl)
OwnStep-IsDone (owner_stops {s} e) (b, v) =
    let c = Phase-at s.canceled s.closed s.reader s.owner to_stop e v in
    (Follows-stop s.canceled s.closed s.callback c b, c)
OwnStep-IsDone (owner_closes {s} e) (b, v) = (
  Follows-close s.canceled s.closed s.callback b,
  (Phase-at s.canceled s.closed s.reader s.owner to_close e v, refl),
)
OwnStep-IsDone (owner_joins {s} e f) (b, v) =
    let (c, k) = Phase-at s.canceled s.closed s.reader s.owner to_join e v in (b, (c, k, f))

SocketStep-IsDone : {s t : Socket} → SocketStep s t → IsDone s → IsDone t
SocketStep-IsDone (parent_cancels {s}) (b, v) = (
  Follows-cancel s.canceled s.closed s.callback b,
  Phase-cancel s.canceled s.closed s.reader s.owner v,
)
SocketStep-IsDone (peer_sends e f) v = v
SocketStep-IsDone (peer_fails {s} e f) (b, v) = (
  b,
  Phase-reader s.canceled s.closed s.reader canceling s.owner
      (not_gone s.reader reading e (ground arith)) v,
)
SocketStep-IsDone (handler_ends e) (b, v) = (b, tt)
SocketStep-IsDone (own p) v = OwnStep-IsDone p v

pub SocketSteps-IsDone : {s t : Socket} → SocketSteps s t → IsDone s → IsDone t
SocketSteps-IsDone start v = v
SocketSteps-IsDone (then_step p q) v = SocketStep-IsDone q (SocketSteps-IsDone p v)

pub new_socket-IsDone : IsDone new_socket
new_socket-IsDone = (refl, tt)

started_or_ran :
    (c k : Bool) (b : Callback) → c ≡ true → Follows c k b → (b ≡ started) ⊎ (b ≡ closed_it)
started_or_ran c k armed e v = cc (e, v)
started_or_ran c k started e v = inl refl
started_or_ran c k closed_it e v = inr refl
started_or_ran c k disarmed e v = absurd (true≢false v)

-- However the peer, the reader, the context, its callback and the handler interleave: once the cleanup
-- has returned, the context is canceled, the connection is closed and the reader is gone. The
-- callback was started: it has closed the connection too, or is still to run in its own goroutine.
pub new_socket-joins :
    {s : Socket}
    → SocketSteps new_socket s
    → s.owner ≡ returned
    → (s.canceled ≡ true)
      × (s.closed ≡ true)
      × (s.reader ≡ gone)
      × ((s.callback ≡ started) ⊎ (s.callback ≡ closed_it))
new_socket-joins {s} p e =
    let (b, v) = SocketSteps-IsDone p new_socket-IsDone in
    let (c, k, g) = Phase-at s.canceled s.closed s.reader s.owner returned e v in
    (c, k, g, started_or_ran s.canceled s.closed s.callback c b)
