-- ===== src/Tests/Clients.antt =====
-- Runs of the client's statistics and diagnostics.
use entropy_service.Prelude.{ℕ, ◌≡◌, refl, none, String, List, true, [], ◌∷◌, arith}
use entropy_service.Prelude.Outcome.{ok}
use entropy_service.Upload.Analyze.{Pass, more, eof}
use entropy_service.Upload.Laws.{body_of}
use entropy_service.Client.Stats.Tester.{new_tester, add, run_from_reader}
use entropy_service.Client.Stats.Laws.{add-append, Summarizes, last_or, run_from_reader-Summarizes}
use entropy_service.Client.Frames.Lease.{Pool, Message, read_stream_frame}
use entropy_service.Client.Frames.Laws.{IsSized, IsExactFrame, read_stream_frame-IsExactFrame}

abbrev some_bytes : List ℕ
some_bytes = 1 ∷ 200 ∷ 255 ∷ []

abbrev two_reads : List (Pass String)
two_reads =
    record { context = none; chunk = 1 ∷ 200 ∷ []; end = more }
    ∷ record { context = none; chunk = 255 ∷ []; end = eof }
    ∷ []

add-append_example : add (255 ∷ []) (add (1 ∷ 200 ∷ []) new_tester) ≡ add some_bytes new_tester
add-append_example = add-append (1 ∷ 200 ∷ []) (255 ∷ []) new_tester

run_from_reader-Summarizes_example :
    ((run_from_reader "stuck" 2 2 two_reads).result ≡ ok tt)
    × Summarizes some_bytes (last_or new_tester (run_from_reader "stuck" 2 2 two_reads).seen)
unfolding body_of
run_from_reader-Summarizes_example =
    run_from_reader-Summarizes "stuck" 2 2 two_reads some_bytes
      (omega arith, (omega arith, (omega arith, tt))) (omega arith) refl

-- A pool with one buffer and room for another.
abbrev pool : Pool
pool = record { capacity = 2; buffers = (0 ∷ 0 ∷ 0 ∷ []) ∷ [] }

abbrev message : Message
message = record { binary = true; bytes = some_bytes; failure = none }

read_stream_frame-IsExactFrame_example :
    IsSized 3 (read_stream_frame 3 pool (ok message)).0
    × IsExactFrame 3 message (read_stream_frame 3 pool (ok message)).1
read_stream_frame-IsExactFrame_example =
    read_stream_frame-IsExactFrame 3 pool message (omega arith)
      (record { within = omega arith; each = (refl, tt) })
