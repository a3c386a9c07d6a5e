-- ===== src/Client/Monitor/Interrupt.antt =====
-- The callback that closes the connection of a canceled stream.
use entropy_service.Prelude.{◌≡◌, refl, sym, ◌∙◌, Bool, false, ◌⊎◌, inl, inr, true, false, arith}
use entropy_service.Client.Monitor.Stream.{
  Producer, looping, reading, ended, sending, Stream, Closer, close_armed, close_started, close_ran,
  close_stopped, start_closer, cancel_stream, LocalStep, begins_read, sees_cancel, close_fails,
  sends, gives_up, closer_closes, takes, sees_closed, leaves, observes, drains, returns, StreamStep,
  reads, peer_fails, is_canceled, local, StreamSteps, start, then_step,
}

-- What the callback shows of the context and the connection while the goroutine runs.
abbrev pub Follows : Bool → Bool → Closer → Type 0
Follows c k close_armed = c ≡ false
Follows c k close_started = c ≡ true
Follows c k close_ran = (c ≡ true) × (k ≡ true)
Follows c k close_stopped = true ≡ false

abbrev pub IsInterruptible : Stream → Type 0
IsInterruptible s = (s.producer ≡ ended) ⊎ Follows s.canceled s.conn_closed s.closer

Follows-cancel : (c k : Bool) (b : Closer) → Follows c k b → Follows true k (start_closer b)
Follows-cancel c k close_armed v = refl
Follows-cancel c k close_started v = refl
Follows-cancel c k close_ran v = (refl, v.1)
Follows-cancel c k close_stopped v = v

cancel-IsInterruptible : (s : Stream) → IsInterruptible s → IsInterruptible (cancel_stream s)
cancel-IsInterruptible s (inl e) = inl e
cancel-IsInterruptible s (inr v) = inr (Follows-cancel s.canceled s.conn_closed s.closer v)

-- A goroutine that goes on had not returned.
goes_on :
    (s : Stream) (p : Producer) {A : Type 0}
    → s.producer ≡ p
    → ¬ (p ≡ ended)
    → IsInterruptible s
    → A ⊎ Follows s.canceled s.conn_closed s.closer
goes_on s p e n (inl h) = absurd (n (sym e ∙ h))
goes_on s p e n (inr v) = inr v

closer-Follows :
    (c k : Bool) (b : Closer) → b ≡ close_started → Follows c k b → Follows c true close_ran
closer-Follows c k close_armed e v = cc e
closer-Follows c k close_started e v = (v, refl)
closer-Follows c k close_ran e v = (v.0, refl)
closer-Follows c k close_stopped e v = cc e

closes-IsInterruptible :
    (s : Stream)
    → s.closer ≡ close_started
    → IsInterruptible s
    → IsInterruptible (record s { closer = close_ran; conn_closed = true })
closes-IsInterruptible s e (inl h) = inl h
closes-IsInterruptible s e (inr v) = inr (closer-Follows s.canceled s.conn_closed s.closer e v)

pub LocalStep-IsInterruptible :
    {s t : Stream} → LocalStep s t → IsInterruptible s → IsInterruptible t
LocalStep-IsInterruptible (begins_read {s} p c) v = goes_on s looping p (ground arith) v
LocalStep-IsInterruptible (sees_cancel p c) v = inl refl
LocalStep-IsInterruptible (close_fails p k) v = inl refl
LocalStep-IsInterruptible (sends {s} frame p o) v = goes_on s (sending frame) p (ground arith) v
LocalStep-IsInterruptible (gives_up frame p c) v = inl refl
LocalStep-IsInterruptible (closer_closes {s} e) v = closes-IsInterruptible s e v
LocalStep-IsInterruptible (takes frame rest c o) v = v
LocalStep-IsInterruptible (sees_closed {s} c o e) v = cancel-IsInterruptible s v
LocalStep-IsInterruptible (leaves c e) v = v
LocalStep-IsInterruptible (observes frame c) v = v
LocalStep-IsInterruptible (drains frame rest c o) v = v
LocalStep-IsInterruptible (returns c o e) v = v

StreamStep-IsInterruptible : {s t : Stream} → StreamStep s t → IsInterruptible s → IsInterruptible t
StreamStep-IsInterruptible (reads {s} frame p) v = goes_on s reading p (ground arith) v
StreamStep-IsInterruptible (peer_fails p k) v = inl refl
StreamStep-IsInterruptible (is_canceled {s}) v = cancel-IsInterruptible s v
StreamStep-IsInterruptible (local q) v = LocalStep-IsInterruptible q v

pub StreamSteps-IsInterruptible :
    {s t : Stream} → StreamSteps s t → IsInterruptible s → IsInterruptible t
StreamSteps-IsInterruptible start v = v
StreamSteps-IsInterruptible (then_step p q) v =
    StreamStep-IsInterruptible q (StreamSteps-IsInterruptible p v)
