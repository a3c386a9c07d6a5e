-- ===== src/Tests/Services.antt =====
-- Runs of the reseed loop, the shutdown, the endpoints, the sources, the upload and the log.
use entropy_service.Prelude.{
  ℕ, ◌+◌, ◌≡◌, refl, Bool, true, false, none, some, String, List, [], ◌∷◌, arith,
}
use entropy_service.Prelude.Int.{pos}
use entropy_service.Prelude.Outcome.{Outcome, ok, err}
use entropy_service.Metrics.{no_metrics}
use entropy_service.Budget.History.{
  request, finish, run, ws_admission, http_admission, fresh_world, open_count, held,
}
use entropy_service.Drbg.Algorithm.{Error}
use entropy_service.Reseed.Loop.{Attempt, reseed_loop}
use entropy_service.Reseed.Laws.{IsAccounted, reseed_loop-IsAccounted}
use entropy_service.Lifecycle.Managed.{
  Managed, new_managed_server, enter, rejected, Steps, here, next, arrives, leaves, stops, cancels,
  waits, joins,
}
use entropy_service.Lifecycle.Laws.{new_managed_server-joins}
use entropy_service.Observability.Exposition.{Peaks, count, metrics_handler}
use entropy_service.Observability.Laws.{value_of, metrics_handler-run}
use entropy_service.Source.Select.{
  Selected, IsTruthful, select_entropy_source, select_entropy_source-total,
}
use entropy_service.Rdrand.Mixer.{CpuError, unavailable, read_mixed}
use entropy_service.Rdrand.Laws.{draw, is_some, read_mixed-draws}
use entropy_service.Rdrand.Key.{words_for, xor_key, key_of_words}
use entropy_service.StatusWriter.Writer.{Use, write_header, write, flush, new_writer, use_all}
use entropy_service.StatusWriter.Laws.{IsHonest, use_all-new_writer-IsHonest}
use entropy_service.Upload.Analyze.{Pass, more, eof, Report, analyze_upload}
use entropy_service.Upload.Laws.{IsReport, body_of, analyze_upload-IsReport}
use entropy_service.Tests.Samples.{plain_cipher, process, root, seed32}

abbrev text_of : Error → String
text_of e = "reseed failed"

abbrev good : Attempt
good = record { canceled_before = false; result = ok seed32; canceled_after = false; now = 9 }

abbrev bad : Attempt
bad = record { canceled_before = false; result = err "EOF"; canceled_after = false; now = 10 }

reseed_loop-IsAccounted_example : IsAccounted no_metrics (root ∷ root ∷ []) (
    reseed_loop plain_cipher text_of "size"
      (pos 32)
      ((good ∷ bad ∷ []) ∷ (good ∷ good ∷ []) ∷ [])
      no_metrics
      (root ∷ root ∷ []))
reseed_loop-IsAccounted_example =
    reseed_loop-IsAccounted plain_cipher text_of "size" (pos 32)
      ((good ∷ bad ∷ []) ∷ (good ∷ good ∷ []) ∷ []) no_metrics (root ∷ root ∷ [])

-- A handler enters, the server stops, the handler leaves, and the wait is over.
abbrev over : Managed
over = record { stopping = true; canceled = true; handlers = 0; waiting = true; done = true }

to_over : Steps new_managed_server over
unfolding enter
to_over =
    next
      (next (next (next (next (next here arrives) stops) (cancels refl)) (waits refl))
        (leaves 0 refl))
      (joins refl refl)

new_managed_server-joins_example : (over.handlers ≡ 0) × (enter over ≡ (over, rejected))
new_managed_server-joins_example = new_managed_server-joins to_over refl

abbrev quiet_peaks : Peaks ℕ
quiet_peaks = record {
  generated_bytes_per_second = 0;
  ws_frames_per_second = 0;
  http_requests_per_second = 0;
  ws_rejections_per_minute = 0;
  http_rejections_per_minute = 0;
}

metrics_handler-run_example :
    let ws = run ws_admission (fresh_world 2 200000 128) (request false (pos 70000) ∷ []) in
    let http =
      run http_admission (fresh_world 1 200000 128) (request false (pos 70000) ∷ finish 0 ∷ []) in
    let exposed = metrics_handler process 6 (pos 10) root ws.budget http.budget quiet_peaks in
    (value_of "ws_connections_active" exposed ≡ some (count (open_count ws.tickets)))
    × (value_of "ws_memory_reserved_bytes" exposed ≡ some (count (held ws.tickets)))
    × (value_of "http_generation_requests_active" exposed ≡ some (count (open_count http.tickets)))
    × (value_of "http_generation_memory_reserved_bytes" exposed ≡ some (count (held http.tickets)))
metrics_handler-run_example =
    metrics_handler-run process 6 (pos 10) root quiet_peaks 2 200000 1 200000 128
      (request false (pos 70000) ∷ []) (request false (pos 70000) ∷ finish 0 ∷ [])

-- Every attempt fails, and is counted.
abbrev no_device : ℕ → String → ℕ × Outcome String String
no_device w path = (w + 1, err path)

select_entropy_source-total_example :
    (s : Selected String × String) × ((select_entropy_source no_device 0 "/dev/q" false).1 ≡ ok s)
    × IsTruthful no_device 0 "/dev/q" s
select_entropy_source-total_example = select_entropy_source-total no_device 0 "/dev/q"

-- An instruction that gives one word and then fails.
abbrev one_word : Bool → Bool × Outcome CpuError ℕ
one_word true = (false, ok 258)
one_word false = (false, err unavailable)

abbrev nine : List ℕ
nine = 1 ∷ 2 ∷ 3 ∷ 4 ∷ 5 ∷ 6 ∷ 7 ∷ 8 ∷ 9 ∷ []

read_mixed-draws_example :
    let (m, warned', report) = read_mixed one_word true false nine in
    let d = draw one_word (words_for nine) true in
    (m.state ≡ d.state)
    × (m.bytes ≡ xor_key nine (key_of_words d.words))
    × (m.failure ≡ d.failure)
    × (report ≡ d.failure)
    × (warned' ≡ is_some d.failure)
read_mixed-draws_example = read_mixed-draws one_word true false nine

abbrev uses : List Use
uses = write_header 103 ∷ write_header 404 ∷ write (1 ∷ []) ∷ write_header 200 ∷ flush true ∷ []

use_all-new_writer-IsHonest_example : IsHonest (use_all uses new_writer)
use_all-new_writer-IsHonest_example =
    use_all-new_writer-IsHonest uses (omega arith, (omega arith, (tt, (omega arith, (tt, tt)))))

abbrev two_reads : List (Pass String)
two_reads =
    record { context = none; chunk = 1 ∷ 2 ∷ []; end = more }
    ∷ record { context = none; chunk = 3 ∷ []; end = eof }
    ∷ []

analyze_upload-IsReport_example :
    (out : Report) × (analyze_upload (λ xs. xs) (pos 2) two_reads ≡ ok out)
    × IsReport (λ xs. xs) 2 (1 ∷ 2 ∷ 3 ∷ []) out
unfolding body_of
analyze_upload-IsReport_example =
    analyze_upload-IsReport (λ xs. xs) 2 two_reads (1 ∷ 2 ∷ 3 ∷ []) (omega arith) (omega arith) refl
      (λ e. cc)
