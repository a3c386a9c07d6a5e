-- ===== src/Client/Program/Laws.antt =====
-- When the client starts its monitor, and why it does not.
use entropy_service.Prelude.{ℕ, ◌≡◌, ◌⊎◌, Bool, true, false, Option, some, String, List}
use entropy_service.Prelude.Int.{ℤ, pos, ◌≤ℤ◌}
use entropy_service.Prelude.Outcome.{Outcome, ok, err}
use entropy_service.Client.Program.Run.{
  ClientConfig, validate_analysis, mode_pull, mode_stream, bad_mode, bad_slice, bad_refresh, RunEnd,
  config_rejected, panics, sample_failed, diagnostic_failed, stopped, context_ended, monitored,
  first_sample, Wait, Surroundings, with_query,
}
use entropy_service.Client.Program.Options.{Startable}

module _ {E : Type 0} (end_of_file : E) (is_deadline : E → Bool) (format : ℤ → String)
    (cfg : ClientConfig) (world : Surroundings end_of_file is_deadline) where
  abbrev http_url : String
  http_url = with_query end_of_file is_deadline format cfg cfg.http_url

  abbrev ws_url : String
  ws_url = with_query end_of_file is_deadline format cfg cfg.ws_url

  -- The sample was r, over the transport of the mode.
  abbrev pub Sampled : Outcome E (List ℕ) → Type 0
  Sampled r =
      ((cfg.mode ≡ mode_pull) × (world.fetch http_url cfg.slice ≡ r))
      ⊎ ((cfg.mode ≡ mode_stream)
          × (first_sample end_of_file is_deadline (world.open_stream ws_url) ≡ r))

  -- The diagnostic gave r, over the transport of the mode.
  abbrev pub Tested : Option E → Type 0
  Tested r =
      ((cfg.mode ≡ mode_pull) × (world.test_http http_url ≡ r))
      ⊎ ((cfg.mode ≡ mode_stream) × (world.test_ws ws_url ≡ r))

  -- It gave no error but its own deadline's.
  abbrev pub Tolerated : Type 0
  Tolerated = (r : Option E) × Tested r × ((e : E) → r ≡ some e → is_deadline e ≡ true)

  abbrev pub Waited : Wait → Type 0
  Waited w = (w.done_before ≡ false) × (w.done_after ≡ false)

  abbrev pub Interrupted : Wait → Type 0
  Interrupted w = (w.done_before ≡ true) ⊎ (w.done_after ≡ true)

  -- The options are accepted, and a sample came.
  abbrev pub Begun : Type 0
  Begun = Startable cfg × ((payload : List ℕ) × Sampled (ok payload))

  -- What each end of a run says.
  abbrev pub IsHonestEnd : RunEnd E → Type 0
  IsHonestEnd (config_rejected e) = validate_analysis cfg ≡ err e
  IsHonestEnd (panics bad_mode) = ¬ (cfg.mode ≡ mode_pull) × ¬ (cfg.mode ≡ mode_stream)
  IsHonestEnd (panics bad_slice) = (cfg.slice ≤ℤ pos 0) ⊎ (pos 33554433 ≤ℤ cfg.slice)
  IsHonestEnd (panics bad_refresh) = cfg.refresh ≤ℤ pos 999999
  IsHonestEnd (sample_failed e) = Startable cfg × Sampled (err e)
  IsHonestEnd (diagnostic_failed e) =
      Begun
      × Waited world.first_wait
      × (world.canceled ≡ false)
      × Tested (some e)
      × (is_deadline e ≡ false)
  IsHonestEnd stopped =
      Begun
      × (Interrupted world.first_wait
          ⊎ (Waited world.first_wait
              × (world.canceled ≡ false)
              × Tolerated
              × Interrupted world.second_wait))
  IsHonestEnd context_ended = Begun × Waited world.first_wait × (world.canceled ≡ true)
  IsHonestEnd monitored =
      Begun
      × Waited world.first_wait
      × (world.canceled ≡ false)
      × Tolerated
      × Waited world.second_wait
