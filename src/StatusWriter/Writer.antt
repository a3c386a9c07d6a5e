-- ===== src/StatusWriter/Writer.antt =====
-- `statusWriter` and `observeRequests`. The wrapped writer is a parameter: what it does on each
-- call is its own business (`World`), and the model holds what the wrapper passes to it and
-- remembers.
use entropy_service.Prelude.{
  ℕ, Bool, ◌&&◌, not, Option, none, some, List, [], ◌∷◌, ◌++◌, if◌then◌else◌, leb, ltb, ◌==◌,
}
use entropy_service.Prelude.Int.{pos}
use entropy_service.Metrics.{Metrics, add_http_requests}

abbrev pub status_switching_protocols : ℕ
status_switching_protocols = 101

abbrev pub status_ok : ℕ
status_ok = 200

abbrev pub status_bad_request : ℕ
status_bad_request = 400

-- What a handler does with its writer, with what the wrapped writer answers: bytes written, a flush
-- or a hijack that fails or not, and the number of bytes that `ReadFrom` moved, where the wrapped
-- writer has that method.
pub data Use : Type 0 where
  write_header : ℕ → Use
  write : List ℕ → Use
  flush hijack : Bool → Use
  read_from : ℕ → Use

-- What reaches the wrapped writer, with its answer: a flush or a hijack that succeeds or not, and the
-- number of bytes that were copied.
pub data Passed : Type 0 where
  header : ℕ → Passed
  body : List ℕ → Passed
  flushed hijacked : Bool → Passed
  copied : ℕ → Passed

-- The remembered status, 0 for none yet, and what was passed on, the latest last.
pub record Writer : Type 0 where
  pub status : ℕ
  pub passed : List Passed

abbrev pub new_writer : Writer
new_writer = record { status = 0; passed = [] }

abbrev pub pass_on : Passed → Writer → Writer
pass_on p w = record w { passed = w.passed ++ (p ∷ []) }

-- The first thing that is sent implies a status, if none is set.
abbrev pub imply : ℕ → Writer → Writer
imply code w = record w { status = if w.status == 0 then code else w.status }

abbrev pub is_informational : ℕ → Bool
is_informational code = leb 100 code && ltb code 200 && not (code == status_switching_protocols)

-- `WriteHeader`, `Write`, `FlushError`, `Hijack` and `ReadFrom`.
unfoldable pub use_writer : Use → Writer → Writer
use_writer (write_header code) w =
    if not (w.status == 0)
    then w
    else if is_informational code
    then pass_on (header code) w
    else pass_on (header code) (record w { status = code })
use_writer (write bytes) w = pass_on (body bytes) (imply status_ok w)
use_writer (flush succeeds) w =
    pass_on (flushed succeeds) (if succeeds then imply status_ok w else w)
use_writer (hijack succeeds) w =
    pass_on (hijacked succeeds) (if succeeds then imply status_switching_protocols w else w)
use_writer (read_from moved) w =
    pass_on (copied moved) (if ltb 0 moved then imply status_ok w else w)

unfoldable pub use_all : List Use → Writer → Writer
unfolding use_writer
use_all [] w = w
use_all (u ∷ uses) w = use_all uses (use_writer u w)

-- What `observeRequests` leaves: the metrics, the wrapped writer, and the status that is logged, if
-- the response failed.
pub record Observed : Type 0 where
  pub metrics : Metrics
  pub writer : Writer
  pub logged : Option ℕ

-- `observeRequests`, around a handler that uses its writer as listed.
unfoldable pub observe_request : List Use → Metrics → Observed
unfolding use_all
observe_request uses m =
    let w = use_all uses new_writer in
    record {
      metrics = add_http_requests (pos 1) m;
      writer = w;
      logged = if leb status_bad_request w.status then some w.status else none;
    }
