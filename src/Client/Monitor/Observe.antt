-- ===== src/Client/Monitor/Observe.antt =====
-- `monitorState` with `observe` and `analysePayload`. Times are numbers of nanoseconds; the times that
-- are only displayed, and the hexadecimal preview, are left out.
use entropy_service.Prelude.{
  ℕ, ◌+◌, Bool, false, ◌&&◌, Option, none, some, List, [], ◌∷◌, length, take, ltb, if◌then◌else◌,
}
use entropy_service.Prelude.Word.{add64}
use entropy_service.Client.Diag.Counts.{EntropyGraph, add_quality, new_entropy_graph}
use entropy_service.Client.Diag.Run.{
  Statistics, Diagnostics, run_diagnostics_with_matrix, Dashboard, new_dashboard, add_diagnostics,
}

-- What `observe` uses of the configuration, validated.
pub record MonitorConfig : Type 0 where
  pub analysis_bytes : ℕ
  pub analysis_interval : ℕ
  pub show_matrix : Bool
  pub show_graph : Bool
  pub show_dashboard : Bool

-- `bytes_fetched` is the process's `diag.BytesFetched`; `next_analysis` is none while it is the
-- zero time.
pub record MonitorState (F : Type 0) : Type 0 where
  pub frames : ℕ
  pub total_bytes : ℕ
  pub receive_time : ℕ
  pub bytes_fetched : ℕ
  pub latest : Option (Diagnostics F)
  pub samples : ℕ
  pub analysed_bytes : ℕ
  pub sample_bytes : ℕ
  pub sample_at : ℕ
  pub next_analysis : Option ℕ
  pub graph : EntropyGraph F
  pub dashboard : Dashboard F

-- A frame as it is received: its bytes, the time its read took, and the time of the observation.
pub record Received : Type 0 where
  pub payload : List ℕ
  pub wait : ℕ
  pub now : ℕ

module _ {F : Type 0} (st : Statistics F) (cfg : MonitorConfig) where
  abbrev pub new_monitor_state : MonitorState F
  new_monitor_state = record {
    frames = 0;
    total_bytes = 0;
    receive_time = 0;
    bytes_fetched = 0;
    latest = none;
    samples = 0;
    analysed_bytes = 0;
    sample_bytes = 0;
    sample_at = 0;
    next_analysis = none;
    graph = new_entropy_graph 60;
    dashboard = new_dashboard 60;
  }

  -- The prefix that is analysed.
  abbrev pub prefix : List ℕ → List ℕ
  prefix payload =
      if ltb 0 cfg.analysis_bytes && ltb cfg.analysis_bytes (length payload)
      then take cfg.analysis_bytes payload
      else payload

  unfoldable pub analyse_payload : List ℕ → Diagnostics F
  unfolding run_diagnostics_with_matrix
  analyse_payload payload = run_diagnostics_with_matrix st (prefix payload) cfg.show_matrix

  abbrev pub before : ℕ → Option ℕ → Bool
  before now none = false
  before now (some next) = ltb now next

  -- The counts that every frame changes.
  abbrev pub counted : Received → MonitorState F → MonitorState F
  counted frame m = record m {
    frames = add64 m.frames 1;
    total_bytes = m.total_bytes + length frame.payload;
    receive_time = m.receive_time + frame.wait;
    bytes_fetched = add64 m.bytes_fetched (length frame.payload);
  }

  -- An analysed frame.
  abbrev pub analysed : Received → MonitorState F → MonitorState F
  analysed frame m =
      let d = analyse_payload frame.payload in
      record m {
        latest = some d;
        sample_at = frame.now;
        next_analysis = some (frame.now + cfg.analysis_interval);
        samples = add64 m.samples 1;
        analysed_bytes = add64 m.analysed_bytes d.n;
        sample_bytes = length frame.payload;
        graph = if cfg.show_graph then add_quality d.shannon m.graph else m.graph;
        dashboard = if cfg.show_dashboard then add_diagnostics d m.dashboard else m.dashboard;
      }

  unfoldable pub observe : Received → MonitorState F → MonitorState F
  unfolding analyse_payload add_quality add_diagnostics
  observe frame m =
      if ltb 0 cfg.analysis_interval && before frame.now m.next_analysis
      then counted frame m
      else analysed frame (counted frame m)

  unfoldable pub observe_all : List Received → MonitorState F → MonitorState F
  unfolding observe
  observe_all [] m = m
  observe_all (frame ∷ frames) m = observe_all frames (observe frame m)
