-- ===== src/Tests/Programs.antt =====
-- A fetch, the test of a socket, and a run of the client.
use entropy_service.Prelude.{ℕ, Bool, false, none, String, [], ◌∷◌}
use entropy_service.Prelude.Int.{pos}
use entropy_service.Prelude.Outcome.{ok}
use entropy_service.Client.Diag.Rate.{reset_meter}
use entropy_service.Client.Transport.Fetch.{Response, ClientCounts, fetch_entropy}
use entropy_service.Client.Transport.Laws.{Fetches, fetch_entropy-Fetches}
use entropy_service.Client.Program.Run.{ClientConfig, Surroundings, stream_closed}

abbrev bits : ℕ → ℕ → ℕ
bits n elapsed = n

abbrev fresh_counts : ClientCounts ℕ
fresh_counts = record { received = 5; meter = reset_meter 0 bits 0 }

abbrev response : Response
response = record {
  status = 200;
  content_length = pos 2;
  body = record { bytes = 1 ∷ 2 ∷ []; failure = none };
}

fetch_entropy-Fetches_example :
    Fetches 0 bits none
      (ok response)
      fresh_counts
      (fetch_entropy 0 bits none (ok response) 7 fresh_counts)
fetch_entropy-Fetches_example = fetch_entropy-Fetches 0 bits none (ok response) 7 fresh_counts

abbrev options : ClientConfig
options = record {
  mode = "pull";
  slice = pos 16;
  refresh = pos 1000000;
  http_url = "http://h";
  ws_url = "ws://h";
  analysis_bytes = pos 0;
  analysis_interval = pos 0;
  display_interval = pos 1000000;
}

abbrev in_time : String → Bool
in_time e = false

abbrev world : Surroundings "EOF" in_time
world = record {
  fetch = λ url n. ok (1 ∷ []);
  open_stream = λ url. ok stream_closed;
  test_http = λ url. none;
  test_ws = λ url. none;
  first_wait = record { done_before = false; done_after = false };
  canceled = false;
  second_wait = record { done_before = false; done_after = false };
}
