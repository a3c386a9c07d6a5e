-- ===== src/Client/Monitor/Shutdown.antt =====
-- A canceled stream comes to its end: neither side waits for the other.
use entropy_service.Prelude.{
  ℕ, zero, suc, ◌+◌, ◌*◌, ◌≤◌, ◌<◌, ◌≡◌, refl, ap, false, Bool-cases, ◌⊎◌, inl, inr, true, false,
  List, [], ◌∷◌, ◌++◌, arith, length,
}
use mathlib.Core.Bool.{true≢false}
use entropy_service.Client.Monitor.Stream.{
  Producer, looping, reading, ended, sending, Consumer, waiting, draining, returned, using, Stream,
  new_stream, end_producer, Closer, close_armed, close_started, close_ran, close_stopped,
  stop_closer, LocalStep, sees_cancel, close_fails, gives_up, closer_closes, leaves, observes,
  drains, returns, StreamSteps, LocalSteps, local_start, local_then,
}
use entropy_service.Client.Monitor.Frames.{
  IsConserved, StreamSteps-IsConserved, LocalStep-IsConserved, new_stream-IsConserved,
}
use entropy_service.Client.Monitor.Interrupt.{
  Follows, IsInterruptible, LocalStep-IsInterruptible, StreamSteps-IsInterruptible,
}

-- How much is left to do: what each side has to do at most, and each frame in the channel.
abbrev producer_left : Producer → ℕ
producer_left ended = 0
producer_left looping = 1
producer_left (sending frame) = 5
producer_left reading = 6

abbrev consumer_left : Consumer → ℕ
consumer_left returned = 0
consumer_left draining = 1
consumer_left waiting = 2
consumer_left (using frame) = 3

abbrev closer_left : Closer → ℕ
closer_left close_armed = 2
closer_left close_started = 1
closer_left close_ran = 0
closer_left close_stopped = 0

abbrev work_left : Stream → ℕ
work_left s =
    producer_left s.producer + consumer_left s.consumer + 3 * length s.out + closer_left s.closer

stop_closer-le : (b : Closer) → closer_left (stop_closer b) ≤ closer_left b
stop_closer-le close_armed = omega arith
stop_closer-le close_started = omega arith
stop_closer-le close_ran = omega arith
stop_closer-le close_stopped = omega arith

-- Some side can go on by itself, with less left to do.
abbrev GoesOn : Stream → Type 0
GoesOn s = (t : Stream) × LocalStep s t × (t.canceled ≡ true) × (work_left t < work_left s)

ended_closed : (s : Stream) → s.producer ≡ ended → IsConserved s → ¬ (s.closed ≡ false)
ended_closed s e v = λ k. ground (arith, e, v.closes, k)

-- A read of a canceled stream: the callback closes the connection, and then the read fails.
reading-GoesOn :
    (s : Stream) (b : Closer)
    → s.closer ≡ b
    → s.producer ≡ reading
    → s.canceled ≡ true
    → Follows s.canceled s.conn_closed b
    → GoesOn s
reading-GoesOn s close_armed b p c v = cc (c, v)
reading-GoesOn s close_started b p c v = (
  record s { closer = close_ran; conn_closed = true },
  closer_closes b,
  c,
  omega (arith, ap closer_left b),
)
reading-GoesOn s close_ran b p c v = (
  end_producer s,
  close_fails p v.1,
  c,
  omega (arith, ap producer_left p, stop_closer-le s.closer),
)
reading-GoesOn s close_stopped b p c v = absurd (true≢false v)

read-GoesOn : (s : Stream) → s.producer ≡ reading → s.canceled ≡ true → IsInterruptible s → GoesOn s
read-GoesOn s p c (inl e) = cc (p, e)
read-GoesOn s p c (inr v) = reading-GoesOn s s.closer refl p c v

producer-GoesOn :
    (s : Stream) (p : Producer)
    → s.producer ≡ p
    → s.canceled ≡ true
    → IsConserved s
    → IsInterruptible s
    → s.closed ≡ false
    → GoesOn s
producer-GoesOn s looping e c v f k =
    (end_producer s, sees_cancel e c, c, omega (arith, ap producer_left e, stop_closer-le s.closer))
producer-GoesOn s reading e c v f k = read-GoesOn s e c f
producer-GoesOn s (sending frame) e c v f k = (
  end_producer (record s { unsent = frame ∷ [] }),
  gives_up frame e c,
  c,
  omega (arith, ap producer_left e, stop_closer-le s.closer),
)
producer-GoesOn s ended e c v f k = absurd (ended_closed s e v k)

draining-GoesOn :
    (s : Stream) (out : List (List ℕ))
    → s.out ≡ out
    → s.consumer ≡ draining
    → s.canceled ≡ true
    → IsConserved s
    → IsInterruptible s
    → GoesOn s
draining-GoesOn s (frame ∷ rest) o d c v f = (
  record s { out = rest; drained = s.drained ++ (frame ∷ []) },
  drains frame rest d o,
  c,
  omega (arith, ap (λ l. length l) o),
)
draining-GoesOn s [] o d c v f = elim (Bool-cases s.closed) [
  | inl e ↦ (record s { consumer = returned }, returns d o e, c, omega (arith, ap consumer_left d))
  | inr e ↦ producer-GoesOn s s.producer refl c v f e
]

consumer-GoesOn :
    (s : Stream) (k : Consumer)
    → s.consumer ≡ k
    → s.canceled ≡ true
    → IsConserved s
    → IsInterruptible s
    → (s.consumer ≡ returned) ⊎ GoesOn s
consumer-GoesOn s returned e c v f = inl e
consumer-GoesOn s waiting e c v f =
    inr (record s { consumer = draining }, leaves e c, c, omega (arith, ap consumer_left e))
consumer-GoesOn s (using frame) e c v f = inr (
  record s { consumer = waiting; observed = s.observed ++ (frame ∷ []) },
  observes frame e,
  c,
  omega (arith, ap consumer_left e),
)
consumer-GoesOn s draining e c v f = inr (draining-GoesOn s s.out refl e c v f)

steps_after : {s t u : Stream} → LocalStep s t → LocalSteps t u → LocalSteps s u
steps_after q local_start = local_then local_start q
steps_after q (local_then p r) = local_then (steps_after q p) r

-- The rest of a run, to the return of the monitor, without the peer.
abbrev pub RunsOut : Stream → Type 0
RunsOut s = (t : Stream) × LocalSteps s t × (t.consumer ≡ returned)

runs_out :
    (fuel : ℕ) (s : Stream)
    → work_left s ≤ fuel
    → s.canceled ≡ true
    → IsConserved s
    → IsInterruptible s
    → RunsOut s
runs_out zero s h c v f = elim (consumer-GoesOn s s.consumer refl c v f) [
  | inl e ↦ (s, local_start, e)
  | inr (t, q, c', less) ↦ absurd (omega (arith, h, less))
]
runs_out (suc fuel) s h c v f = elim (consumer-GoesOn s s.consumer refl c v f) [
  | inl e ↦ (s, local_start, e)
  | inr (t, q, c', less) ↦
      let (u, p, e) =
        runs_out fuel t (omega (arith, h, less)) c' (LocalStep-IsConserved q v)
          (LocalStep-IsInterruptible q f) in
      (u, steps_after q p, e)
]

-- From every state that a stream can reach and in which its context is canceled, steps of the
-- goroutine, of the callback that closes the connection and of the monitor alone lead to the return
-- of the monitor: a read that waits for the peer is interrupted by the close, and at no point do
-- the two sides wait for each other.
pub new_stream-RunsOut : {s : Stream} → StreamSteps new_stream s → s.canceled ≡ true → RunsOut s
new_stream-RunsOut {s = s} p c =
    runs_out (work_left s) s (omega arith) c (StreamSteps-IsConserved p new_stream-IsConserved)
      (StreamSteps-IsInterruptible p (inr refl))
