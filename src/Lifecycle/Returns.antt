-- ===== src/Lifecycle/Returns.antt =====
-- The cleanup of a WebSocket returns: nothing that it waits for needs the peer.
use entropy_service.Prelude.{
  ℕ, zero, suc, ◌+◌, ◌≤◌, ◌<◌, ◌≡◌, ◌≢◌, ◌⊎◌, refl, ap, inl, inr, true, arith,
}
use entropy_service.Lifecycle.Socket.{
  Reader, reading, canceling, finishing, gone, stop_callback, cancel_socket, Owner, serving,
  to_cancel, to_stop, to_close, to_join, returned, Socket, new_socket, OwnStep, OwnSteps, own_start,
  own_then, close_fails, reader_cancels, reader_ends, owner_cancels, owner_stops, owner_closes,
  owner_joins, SocketSteps,
}
use entropy_service.Lifecycle.Cleanup.{
  IsDone, Phase-at, OwnStep-IsDone, SocketSteps-IsDone, new_socket-IsDone,
}

before : {s t u : Socket} → OwnStep s t → OwnSteps t u → OwnSteps s u
before p own_start = own_then own_start p
before p (own_then q r) = own_then (before p q) r

abbrev owner_left : Owner → ℕ
owner_left returned = 0
owner_left to_join = 1
owner_left to_close = 2
owner_left to_stop = 3
owner_left to_cancel = 4
owner_left serving = 5

abbrev reader_left : Reader → ℕ
reader_left gone = 0
reader_left finishing = 1
reader_left canceling = 2
reader_left reading = 3

abbrev work_left : Socket → ℕ
work_left s = owner_left s.owner + reader_left s.reader

abbrev GoesOn : Socket → Type 0
GoesOn s = (t : Socket) × OwnStep s t × (work_left t < work_left s) × (t.owner ≢ serving)

join-GoesOn :
    (s : Socket) (r : Reader) → s.reader ≡ r → s.owner ≡ to_join → s.closed ≡ true → GoesOn s
join-GoesOn s reading e o k = (
  record s { reader = canceling },
  close_fails e k,
  omega (arith, ap reader_left e),
  λ x. ground (arith, o, x),
)
join-GoesOn s canceling e o k = (
  record (cancel_socket s) { reader = finishing },
  reader_cancels e,
  omega (arith, ap reader_left e),
  λ x. ground (arith, o, x),
)
join-GoesOn s finishing e o k = (
  record s { reader = gone },
  reader_ends e,
  omega (arith, ap reader_left e),
  λ x. ground (arith, o, x),
)
join-GoesOn s gone e o k =
    (record s { owner = returned }, owner_joins o e, omega (arith, ap owner_left o), ground arith)

owner-GoesOn :
    (s : Socket) (o : Owner) → s.owner ≡ o → IsDone s → o ≢ serving → o ≢ returned → GoesOn s
owner-GoesOn s serving e v m n = absurd (m refl)
owner-GoesOn s returned e v m n = absurd (n refl)
owner-GoesOn s to_cancel e v m n = (
  record (cancel_socket s) { owner = to_stop },
  owner_cancels e,
  omega (arith, ap owner_left e),
  ground arith,
)
owner-GoesOn s to_stop e v m n = (
  record s { owner = to_close; callback = stop_callback s.callback },
  owner_stops e,
  omega (arith, ap owner_left e),
  ground arith,
)
owner-GoesOn s to_close e v m n = (
  record s { owner = to_join; closed = true },
  owner_closes e,
  omega (arith, ap owner_left e),
  ground arith,
)
owner-GoesOn s to_join e v m n =
    join-GoesOn s s.reader refl e (Phase-at s.canceled s.closed s.reader s.owner to_join e v.1).1

abbrev pub Returns : Socket → Type 0
Returns s = (t : Socket) × OwnSteps s t × (t.owner ≡ returned)

is_returned : (o : Owner) → (o ≡ returned) ⊎ (o ≢ returned)
is_returned returned = inl refl
is_returned serving = inr (ground arith)
is_returned to_cancel = inr (ground arith)
is_returned to_stop = inr (ground arith)
is_returned to_close = inr (ground arith)
is_returned to_join = inr (ground arith)

runs_on : (fuel : ℕ) (s : Socket) → work_left s ≤ fuel → IsDone s → s.owner ≢ serving → Returns s
runs_on zero s h v m = elim (is_returned s.owner) [
  | inl e ↦ (s, own_start, e)
  | inr n ↦
      let (t, p, less, m') = owner-GoesOn s s.owner refl v m n in absurd (omega (arith, h, less))
]
runs_on (suc fuel) s h v m = elim (is_returned s.owner) [
  | inl e ↦ (s, own_start, e)
  | inr n ↦
      let (t, p, less, m') = owner-GoesOn s s.owner refl v m n in
      let (u, q, e) = runs_on fuel t (omega (arith, h, less)) (OwnStep-IsDone p v) m' in
      (u, before p q, e)
]

-- From every state that is reached after the handler ended, the cleanup can run until it has returned
-- with steps of the cleanup, the reader and the callback alone: the peer need not send or fail.
pub new_socket-Returns : {s : Socket} → SocketSteps new_socket s → s.owner ≢ serving → Returns s
new_socket-Returns {s} p m =
    runs_on (work_left s) s (omega arith) (SocketSteps-IsDone p new_socket-IsDone) m
