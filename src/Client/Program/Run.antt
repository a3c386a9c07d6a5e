-- ===== src/Client/Program/Run.antt =====
-- `ValidateAnalysis`, `sampleEntropy`, `waitContext` and `run`. Durations are numbers of nanoseconds,
-- signed. What the network, the clock and the context do is given by arguments; printing is left out.
use Prim.Native.String.{◌++◌ as append_text}
use text.Mathlib.Text.{◌==◌}
use entropy_service.Prelude.{
  ℕ, Bool, false, ◌||◌, ◌&&◌, not, Option, none, some, String, List, if◌then◌else◌,
}
use entropy_service.Prelude.Int.{ℤ, pos, ltb_ℤ}
use entropy_service.Prelude.Outcome.{Outcome, ok, err}
use entropy_service.Drbg.Metadata.{milliseconds}

-- What `run` uses of `Config`.
pub record ClientConfig : Type 0 where
  pub mode : String
  pub slice : ℤ
  pub refresh : ℤ
  pub http_url : String
  pub ws_url : String
  pub analysis_bytes : ℤ
  pub analysis_interval : ℤ
  pub display_interval : ℤ

pub data ConfigError : Type 0 where
  bad_analysis_bytes bad_analysis_interval bad_display_interval : ConfigError

abbrev pub millisecond : ℕ
millisecond = 1000000

abbrev pub max_slice : ℕ
max_slice = 33554432

unfoldable pub validate_analysis : ClientConfig → Outcome ConfigError (Unit {0})
validate_analysis cfg =
    if ltb_ℤ cfg.analysis_bytes (pos 0) || ltb_ℤ (pos 33554432) cfg.analysis_bytes
    then err bad_analysis_bytes
    else if ltb_ℤ cfg.analysis_interval (pos 0)
    then err bad_analysis_interval
    else if ltb_ℤ cfg.display_interval (pos millisecond)
    then err bad_display_interval
    else ok tt

abbrev pub mode_pull : String
mode_pull = "pull"

abbrev pub mode_stream : String
mode_stream = "stream"

-- The three panics of `run`.
pub data Panic : Type 0 where
  bad_mode bad_slice bad_refresh : Panic

pub data RunEnd (E : Type 0) : Type 0 where
  config_rejected : ConfigError → RunEnd E
  panics : Panic → RunEnd E
  sample_failed diagnostic_failed : E → RunEnd E
  stopped context_ended monitored : RunEnd E

-- What the stream of a sample gives first: the context done, the closed channel or a frame.
pub data FirstEvent (E : Type 0) : Type 0 where
  sample_canceled : E → FirstEvent E
  stream_closed : FirstEvent E
  first_frame : List ℕ → FirstEvent E

-- What a wait sees of its context: done before the timer fires, or when it has fired.
pub record Wait : Type 0 where
  pub done_before : Bool
  pub done_after : Bool

module _ {E : Type 0} (end_of_file : E) (is_deadline : E → Bool) where
  abbrev pub first_sample : Outcome E (FirstEvent E) → Outcome E (List ℕ)
  first_sample (err e) = err e
  first_sample (ok (sample_canceled e)) = err e
  first_sample (ok stream_closed) = err end_of_file
  first_sample (ok (first_frame payload)) = ok payload

  -- `sampleEntropy`: only the transport of the mode is asked.
  unfoldable pub sample_entropy :
      (String → ℤ → Outcome E (List ℕ))
      → (String → Outcome E (FirstEvent E))
      → String
      → String
      → String
      → ℤ
      → Outcome E (List ℕ)
  sample_entropy fetch open_stream mode http_url ws_url quantity =
      if mode == mode_pull then fetch http_url quantity else first_sample (open_stream ws_url)

  -- `waitContext`: the context is done before the timer, or when it fires, or not at all.
  unfoldable pub wait_context : Wait → Bool
  wait_context w = if w.done_before then false else not w.done_after

  -- The network, and the context at the points where `run` looks at it.
  pub record Surroundings : Type 0 where
    pub fetch : String → ℤ → Outcome E (List ℕ)
    pub open_stream : String → Outcome E (FirstEvent E)
    pub test_http : String → Option E
    pub test_ws : String → Option E
    pub first_wait : Wait
    pub canceled : Bool
    pub second_wait : Wait

  unfoldable pub second_half : Surroundings → Option E → RunEnd E
  unfolding wait_context
  second_half world none =
      if world.canceled
      then context_ended
      else if wait_context world.second_wait
      then monitored
      else stopped
  second_half world (some e) =
      if world.canceled
      then context_ended
      else if not (is_deadline e)
      then diagnostic_failed e
      else if wait_context world.second_wait
      then monitored
      else stopped

  unfoldable pub after_sample :
      ClientConfig → Surroundings → String → String → Outcome E (List ℕ) → RunEnd E
  unfolding wait_context second_half
  after_sample cfg world http_url ws_url (err e) = sample_failed e
  after_sample cfg world http_url ws_url (ok payload) =
      if not (wait_context world.first_wait)
      then stopped
      else second_half world
          (if cfg.mode == mode_pull then world.test_http http_url else world.test_ws ws_url)

  -- `cfg.HTTPUrl + "?bytes=" + rbytes + "&refresh=" + fps`.
  abbrev pub with_query : (ℤ → String) → ClientConfig → String → String
  with_query format cfg url = append_text url (
      append_text "?bytes=" (
        append_text (format cfg.slice)
          (append_text "&refresh=" (format (milliseconds cfg.refresh)))))

  unfoldable pub after_validation :
      (ℤ → String) → ClientConfig → Surroundings → Outcome ConfigError (Unit {0}) → RunEnd E
  unfolding sample_entropy after_sample
  after_validation format cfg world (err e) = config_rejected e
  after_validation format cfg world (ok done) =
      let http_url = with_query format cfg cfg.http_url in
      let ws_url = with_query format cfg cfg.ws_url in
      if not (cfg.mode == mode_pull) && not (cfg.mode == mode_stream)
      then panics bad_mode
      else if ltb_ℤ cfg.slice (pos 1) || ltb_ℤ (pos max_slice) cfg.slice
      then panics bad_slice
      else if ltb_ℤ cfg.refresh (pos millisecond)
      then panics bad_refresh
      else after_sample cfg world http_url ws_url
          (sample_entropy world.fetch world.open_stream cfg.mode http_url ws_url cfg.slice)

  -- `run`; `monitored` stands for its last line, `runMonitor`.
  unfoldable pub run : (ℤ → String) → ClientConfig → Surroundings → RunEnd E
  unfolding validate_analysis after_validation
  run format cfg world = after_validation format cfg world (validate_analysis cfg)
