-- ===== src/Tests/Requests.antt =====
-- A configuration that is accepted.
use entropy_service.Prelude.{◌≡◌, ◌↔◌}
use entropy_service.Prelude.Int.{pos}
use entropy_service.Prelude.Outcome.{ok}
use entropy_service.Config.Validate.{Config, default_config, resolve_age, validate}
use entropy_service.Config.Laws.{IsUsable, validate_iff}

abbrev fast : Config
fast = record (default_config "amd64") { reseed_ms = pos 100 }

validate_iff_example : (validate fast ≡ ok (resolve_age fast)) ↔ IsUsable fast
validate_iff_example = validate_iff fast
