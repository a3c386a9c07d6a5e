-- ===== src/Lifecycle/Socket.antt =====
-- `websocketContext`: a goroutine that reads a WebSocket, a callback that closes it when its context is
-- canceled, and the cleanup that the handler runs at its end. Each call is a step of its own.
use entropy_service.Prelude.{◌≡◌, Bool, true, false}

-- `ReadMessage` in a loop; after its first error the deferred `cancel` and `close(done)`.
pub data Reader : Type 0 where
  reading canceling finishing gone : Reader

-- The callback of `context.AfterFunc`: the first cancel starts it in a goroutine of its own, which
-- nothing waits for; `stop` takes it away only if it was not started.
pub data Callback : Type 0 where
  armed started closed_it disarmed : Callback

abbrev pub start_callback : Callback → Callback
start_callback armed = started
start_callback started = started
start_callback closed_it = closed_it
start_callback disarmed = disarmed

abbrev pub stop_callback : Callback → Callback
stop_callback armed = disarmed
stop_callback started = started
stop_callback closed_it = closed_it
stop_callback disarmed = disarmed

-- The handler, and in its cleanup what it does next; at the end it goes on to release its generator.
pub data Owner : Type 0 where
  serving to_cancel to_stop to_close to_join returned : Owner

pub record Socket : Type 0 where
  pub canceled : Bool
  pub closed : Bool
  pub reader : Reader
  pub callback : Callback
  pub owner : Owner

-- The context is canceled, by its parent or by its own `cancel`.
abbrev pub cancel_socket : Socket → Socket
cancel_socket s = record s { canceled = true; callback = start_callback s.callback }

-- What `websocketContext` returns with.
abbrev pub new_socket : Socket
new_socket = record {
  canceled = false;
  closed = false;
  reader = reading;
  callback = armed;
  owner = serving;
}

-- The steps of the reader, the callback and the cleanup, which need nobody else. A read fails when the
-- connection is closed.
pub data OwnStep : Socket → Socket → Type 0 where
  close_fails :
      {s : Socket}
      → s.reader ≡ reading
      → s.closed ≡ true
      → OwnStep s (record s { reader = canceling })
  reader_cancels :
      {s : Socket}
      → s.reader ≡ canceling
      → OwnStep s (record (cancel_socket s) { reader = finishing })
  reader_ends : {s : Socket} → s.reader ≡ finishing → OwnStep s (record s { reader = gone })
  callback_closes :
      {s : Socket}
      → s.callback ≡ started
      → OwnStep s (record s { callback = closed_it; closed = true })
  owner_cancels :
      {s : Socket} → s.owner ≡ to_cancel → OwnStep s (record (cancel_socket s) { owner = to_stop })
  owner_stops :
      {s : Socket}
      → s.owner ≡ to_stop
      → OwnStep s (record s { owner = to_close; callback = stop_callback s.callback })
  owner_closes :
      {s : Socket} → s.owner ≡ to_close → OwnStep s (record s { owner = to_join; closed = true })
  owner_joins :
      {s : Socket} → s.owner ≡ to_join → s.reader ≡ gone → OwnStep s (record s { owner = returned })

-- All steps: a message is read and dropped while the connection is open, and the peer or the read limit
-- may end the reading.
pub data SocketStep : Socket → Socket → Type 0 where
  parent_cancels : {s : Socket} → SocketStep s (cancel_socket s)
  peer_sends : {s : Socket} → s.reader ≡ reading → s.closed ≡ false → SocketStep s s
  peer_fails :
      {s : Socket}
      → s.reader ≡ reading
      → s.closed ≡ false
      → SocketStep s (record s { reader = canceling })
  handler_ends : {s : Socket} → s.owner ≡ serving → SocketStep s (record s { owner = to_cancel })
  own : {s t : Socket} → OwnStep s t → SocketStep s t

pub data SocketSteps (s : Socket) : Socket → Type 0 where
  start : SocketSteps s s
  then_step : {t u : Socket} → SocketSteps s t → SocketStep t u → SocketSteps s u

pub data OwnSteps (s : Socket) : Socket → Type 0 where
  own_start : OwnSteps s s
  own_then : {t u : Socket} → OwnSteps s t → OwnStep t u → OwnSteps s u
