-- ===== src/Client/Transport/Fetch.antt =====
-- `FetchEntropy`. The request and the response of net/http are arguments: an error, or a status, a
-- declared length and a body, which ends after its bytes or fails there.
use entropy_service.Prelude.{
  ℕ, ◌+◌, ◌||◌, Option, none, some, String, List, ltb, leb, length, take, if◌then◌else◌,
}
use entropy_service.Prelude.Int.{ℤ, pos, ltb_ℤ}
use entropy_service.Prelude.Word.{add64}
use entropy_service.Prelude.Outcome.{Outcome, ok, err}
use entropy_service.Client.Diag.Rate.{RateMeter, update_meter}
use entropy_service.Client.Frames.Lease.{max_entropy_bytes}

pub record Body : Type 0 where
  pub bytes : List ℕ
  pub failure : Option String

pub record Response : Type 0 where
  pub status : ℕ
  pub content_length : ℤ
  pub body : Body

pub data FetchError : Type 0 where
  bad_request no_response read_failed : String → FetchError
  bad_status : ℕ → List ℕ → FetchError
  entropy_too_large : FetchError

-- The client's count of received bytes, and its rate meter.
pub record ClientCounts (F : Type 0) : Type 0 where
  pub received : ℕ
  pub meter : RateMeter F

-- `io.ReadAll` of an `io.LimitReader`: the reading stops at the limit, before a later failure.
abbrev pub at_end : List ℕ → Option String → Outcome FetchError (List ℕ)
at_end bytes none = ok bytes
at_end bytes (some e) = err (read_failed e)

unfoldable pub read_limited : ℕ → Body → Outcome FetchError (List ℕ)
read_limited limit body =
    if leb limit (length body.bytes)
    then ok (take limit body.bytes)
    else at_end body.bytes body.failure

module _ {F : Type 0} (zero_rate : F) (bits_per_second : ℕ → ℕ → F) where
  abbrev pub count_received : ℕ → List ℕ → ClientCounts F → ClientCounts F
  count_received now bytes s = record {
    received = add64 s.received (length bytes);
    meter = update_meter zero_rate bits_per_second now (length bytes) s.meter;
  }

  abbrev pub after_body :
      ℕ
      → ClientCounts F
      → Outcome FetchError (List ℕ)
      → ClientCounts F × Outcome FetchError (List ℕ)
  after_body now s (err e) = (s, err e)
  after_body now s (ok bytes) =
      if ltb max_entropy_bytes (length bytes)
      then (s, err entropy_too_large)
      else (count_received now bytes s, ok bytes)

  abbrev pub after_response :
      ℕ → ClientCounts F → Outcome String Response → ClientCounts F × Outcome FetchError (List ℕ)
  after_response now s (err e) = (s, err (no_response e))
  after_response now s (ok r) =
      if ltb r.status 200 || leb 300 r.status
      then (s, err (bad_status r.status (take 256 r.body.bytes)))
      else if ltb_ℤ (pos max_entropy_bytes) r.content_length
      then (s, err entropy_too_large)
      else after_body now s (read_limited (max_entropy_bytes + 1) r.body)

  unfoldable pub fetch_entropy :
      Option String
      → Outcome String Response
      → ℕ
      → ClientCounts F
      → ClientCounts F × Outcome FetchError (List ℕ)
  unfolding read_limited update_meter
  fetch_entropy none response now s = after_response now s response
  fetch_entropy (some e) response now s = (s, err (bad_request e))
