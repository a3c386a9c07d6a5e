-- ===== src/Tests/Monitors.antt =====
-- A stream of one frame that is canceled, and the counts of three frames.
use entropy_service.Prelude.{ℕ, ◌%◌, ◌≡◌, refl, true, false, List, [], ◌∷◌, ◌++◌, length}
use entropy_service.Prelude.Word.{u64_mod}
use entropy_service.Client.Diag.Run.{Statistics}
use entropy_service.Client.Monitor.Observe.{MonitorConfig, Received}
use entropy_service.Client.Monitor.Sampling.{bytes_of}
use entropy_service.Client.Monitor.Stream.{
  Stream, new_stream, ended, StreamSteps, start, then_step, begins_read, reads, sends, takes, local,
  close_started, observes, is_canceled, sees_cancel, leaves, returned, returns,
}
use entropy_service.Client.Monitor.Frames.{bytes_of as frame_bytes, new_stream-releases}
use entropy_service.Client.Monitor.Shutdown.{RunsOut, new_stream-RunsOut}

-- The stream in which a frame was sent and the context was then canceled.
abbrev canceled_stream : Stream
canceled_stream = record new_stream {
  canceled = true;
  closer = close_started;
  out = (7 ∷ 8 ∷ []) ∷ [];
  produced = (7 ∷ 8 ∷ []) ∷ [];
  bytes_received = 2;
  wss_messages = 1;
}

to_canceled : StreamSteps new_stream canceled_stream
to_canceled =
    then_step
      (then_step
        (then_step (then_step start (local (begins_read refl refl))) (reads (7 ∷ 8 ∷ []) refl))
        (local (sends (7 ∷ 8 ∷ []) refl refl)))
      is_canceled

new_stream-RunsOut_example : RunsOut canceled_stream
new_stream-RunsOut_example = new_stream-RunsOut to_canceled refl

-- The run in which the monitor observes it and both return.
abbrev ended_stream : Stream
ended_stream = record new_stream {
  canceled = true;
  closer = close_started;
  conn_closed = true;
  closed = true;
  producer = ended;
  consumer = returned;
  produced = (7 ∷ 8 ∷ []) ∷ [];
  observed = (7 ∷ 8 ∷ []) ∷ [];
  bytes_received = 2;
  wss_messages = 1;
}

to_ended : StreamSteps new_stream ended_stream
to_ended =
    then_step
      (then_step
        (then_step
          (then_step (then_step to_canceled (local (takes (7 ∷ 8 ∷ []) [] refl refl)))
            (local (observes (7 ∷ 8 ∷ []) refl)))
          (local (sees_cancel refl refl)))
        (local (leaves refl refl)))
      (local (returns refl refl refl))

new_stream-releases_example :
    (ended_stream.producer ≡ ended)
    × (ended_stream.produced
        ≡ ended_stream.observed ++ (ended_stream.drained ++ ended_stream.unsent))
    × (ended_stream.bytes_received ≡ frame_bytes ended_stream.produced % u64_mod)
    × (ended_stream.wss_messages ≡ length ended_stream.produced % u64_mod)
new_stream-releases_example = new_stream-releases to_ended refl

abbrev statistics : Statistics ℕ
statistics = record {
  none_yet = 0;
  chi_square = λ h n. n;
  chi2_p_value = λ x. x;
  shannon_entropy = λ h n. n;
  monobit_pvalue = λ xs. 1;
  serial_correlation = λ xs. (0, 1);
  passes = λ a b c d. true;
}

abbrev config : MonitorConfig
config = record {
  analysis_bytes = 2;
  analysis_interval = 10;
  show_matrix = false;
  show_graph = true;
  show_dashboard = true;
}

abbrev three_frames : List Received
three_frames =
    record { payload = 1 ∷ 2 ∷ 3 ∷ []; wait = 1; now = 5 }
    ∷ record { payload = 4 ∷ []; wait = 1; now = 9 }
    ∷ record { payload = 5 ∷ []; wait = 1; now = 20 }
    ∷ []
