-- ===== src/Tests/Sockets.antt =====
-- A WebSocket whose handler ends while its reader waits.
use entropy_service.Prelude.{◌≡◌, ◌⊎◌, refl, true, arith}
use entropy_service.Lifecycle.Socket.{
  gone, started, closed_it, to_cancel, to_join, returned, Socket, new_socket, own, close_fails,
  reader_cancels, reader_ends, handler_ends, owner_cancels, owner_stops, owner_closes, owner_joins,
  SocketSteps, start, then_step,
}
use entropy_service.Lifecycle.Cleanup.{new_socket-joins}
use entropy_service.Lifecycle.Returns.{Returns, new_socket-Returns}

abbrev ended_socket : Socket
ended_socket = record new_socket { owner = to_cancel }

to_ended_socket : SocketSteps new_socket ended_socket
to_ended_socket = then_step start (handler_ends refl)

abbrev joined_socket : Socket
joined_socket = record {
  canceled = true;
  closed = true;
  reader = gone;
  callback = started;
  owner = returned;
}

to_waiting_socket : SocketSteps new_socket (record joined_socket { owner = to_join })
to_waiting_socket =
    then_step
      (then_step
        (then_step
          (then_step
            (then_step (then_step to_ended_socket (own (owner_cancels refl)))
              (own (owner_stops refl)))
            (own (owner_closes refl)))
          (own (close_fails refl refl)))
        (own (reader_cancels refl)))
      (own (reader_ends refl))

to_joined_socket : SocketSteps new_socket joined_socket
to_joined_socket = then_step to_waiting_socket (own (owner_joins refl refl))

new_socket-joins_example :
    (joined_socket.canceled ≡ true)
    × (joined_socket.closed ≡ true)
    × (joined_socket.reader ≡ gone)
    × ((joined_socket.callback ≡ started) ⊎ (joined_socket.callback ≡ closed_it))
new_socket-joins_example = new_socket-joins to_joined_socket refl

new_socket-Returns_example : Returns ended_socket
new_socket-Returns_example = new_socket-Returns to_ended_socket (ground arith)
