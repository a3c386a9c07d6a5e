-- ===== src/Client/Monitor/Stream.antt =====
-- `StreamEntropy`'s goroutine and the loop of `runMonitor` with its deferred drain, in stream mode. The
-- two run at once: each step is one operation of either, or the cancellation of the context. A frame
-- is its bytes; what the steps leave behind is kept in lists, the oldest first.
use entropy_service.Prelude.{ℕ, ◌≡◌, Bool, true, false, List, [], ◌∷◌, ◌++◌, length}
use entropy_service.Prelude.Word.{add64}

-- The goroutine: at the head of its loop, in `readStreamFrame`, in the `select` with a frame, returned.
pub data Producer : Type 0 where
  looping reading ended : Producer
  sending : List ℕ → Producer

-- The callback of `context.AfterFunc` that closes the connection: the cancel starts it in a
-- goroutine of its own, unless `stop` was called before.
pub data Closer : Type 0 where
  close_armed close_started close_ran close_stopped : Closer

abbrev pub start_closer : Closer → Closer
start_closer close_armed = close_started
start_closer close_started = close_started
start_closer close_ran = close_ran
start_closer close_stopped = close_stopped

abbrev pub stop_closer : Closer → Closer
stop_closer close_armed = close_stopped
stop_closer close_started = close_started
stop_closer close_ran = close_ran
stop_closer close_stopped = close_stopped

-- The monitor: in its `select`, with a frame, in the deferred loop, returned.
pub data Consumer : Type 0 where
  waiting draining returned : Consumer
  using : List ℕ → Consumer

-- `out` has room for one frame and may be closed. Three lists hold the frames that were released: those
-- observed by the monitor, those drained behind it, and those that the goroutine could not send.
pub record Stream : Type 0 where
  pub canceled : Bool
  pub closer : Closer
  pub conn_closed : Bool
  pub out : List (List ℕ)
  pub closed : Bool
  pub producer : Producer
  pub consumer : Consumer
  pub produced : List (List ℕ)
  pub observed : List (List ℕ)
  pub drained : List (List ℕ)
  pub unsent : List (List ℕ)
  pub bytes_received : ℕ
  pub wss_messages : ℕ

abbrev pub new_stream : Stream
new_stream = record {
  canceled = false;
  closer = close_armed;
  conn_closed = false;
  out = [];
  closed = false;
  producer = looping;
  consumer = waiting;
  produced = [];
  observed = [];
  drained = [];
  unsent = [];
  bytes_received = 0;
  wss_messages = 0;
}

abbrev pub capacity : ℕ
capacity = 1

-- The goroutine returns: the deferred `stop()`, `conn.Close()` and `close(out)`.
abbrev pub end_producer : Stream → Stream
end_producer s = record s {
  producer = ended;
  closer = stop_closer s.closer;
  conn_closed = true;
  closed = true;
}

-- The context is canceled.
abbrev pub cancel_stream : Stream → Stream
cancel_stream s = record s { canceled = true; closer = start_closer s.closer }

-- A frame is read, and counted by `AddClientBytesReceived` and `IncClientWSSMessages`.
abbrev pub count_frame : List ℕ → Stream → Stream
count_frame frame s = record s {
  producer = sending frame;
  produced = s.produced ++ (frame ∷ []);
  bytes_received = add64 s.bytes_received (length frame);
  wss_messages = add64 s.wss_messages 1;
}

-- The steps that need neither the peer nor the parent of the context.
pub data LocalStep : Stream → Stream → Type 0 where
  -- `for ctx.Err() == nil`.
  begins_read :
      {s : Stream}
      → s.producer ≡ looping
      → s.canceled ≡ false
      → LocalStep s (record s { producer = reading })
  sees_cancel :
      {s : Stream} → s.producer ≡ looping → s.canceled ≡ true → LocalStep s (end_producer s)
  -- `readStreamFrame` fails on a closed connection.
  close_fails :
      {s : Stream} → s.producer ≡ reading → s.conn_closed ≡ true → LocalStep s (end_producer s)
  -- The two cases of its `select`.
  sends :
      {s : Stream} (frame : List ℕ)
      → s.producer ≡ sending frame
      → s.out ≡ []
      → LocalStep s (record s { producer = looping; out = frame ∷ [] })
  gives_up :
      {s : Stream} (frame : List ℕ)
      → s.producer ≡ sending frame
      → s.canceled ≡ true
      → LocalStep s (end_producer (record s { unsent = frame ∷ [] }))
  -- The callback.
  closer_closes :
      {s : Stream}
      → s.closer ≡ close_started
      → LocalStep s (record s { closer = close_ran; conn_closed = true })
  -- The monitor's `select`: a frame, the closed channel, or the context; the deferred function cancels.
  takes :
      {s : Stream} (frame : List ℕ) (rest : List (List ℕ))
      → s.consumer ≡ waiting
      → s.out ≡ frame ∷ rest
      → LocalStep s (record s { out = rest; consumer = using frame })
  sees_closed :
      {s : Stream}
      → s.consumer ≡ waiting
      → s.out ≡ []
      → s.closed ≡ true
      → LocalStep s (record (cancel_stream s) { consumer = draining })
  leaves :
      {s : Stream}
      → s.consumer ≡ waiting
      → s.canceled ≡ true
      → LocalStep s (record s { consumer = draining })
  -- `m.observe` and `frame.Release`.
  observes :
      {s : Stream} (frame : List ℕ)
      → s.consumer ≡ using frame
      → LocalStep s (record s { consumer = waiting; observed = s.observed ++ (frame ∷ []) })
  -- `for frame := range frames`, until the channel is closed and empty.
  drains :
      {s : Stream} (frame : List ℕ) (rest : List (List ℕ))
      → s.consumer ≡ draining
      → s.out ≡ frame ∷ rest
      → LocalStep s (record s { out = rest; drained = s.drained ++ (frame ∷ []) })
  returns :
      {s : Stream}
      → s.consumer ≡ draining
      → s.out ≡ []
      → s.closed ≡ true
      → LocalStep s (record s { consumer = returned })

pub data StreamStep : Stream → Stream → Type 0 where
  -- `readStreamFrame` gives a frame, or the error that the peer or the connection gave.
  reads : {s : Stream} (frame : List ℕ) → s.producer ≡ reading → StreamStep s (count_frame frame s)
  peer_fails :
      {s : Stream} → s.producer ≡ reading → s.conn_closed ≡ false → StreamStep s (end_producer s)
  -- The context is canceled by its parent.
  is_canceled : {s : Stream} → StreamStep s (cancel_stream s)
  local : {s t : Stream} → LocalStep s t → StreamStep s t

pub data StreamSteps (s : Stream) : Stream → Type 0 where
  start : StreamSteps s s
  then_step : {t u : Stream} → StreamSteps s t → StreamStep t u → StreamSteps s u

pub data LocalSteps (s : Stream) : Stream → Type 0 where
  local_start : LocalSteps s s
  local_then : {t u : Stream} → LocalSteps s t → LocalStep t u → LocalSteps s u
