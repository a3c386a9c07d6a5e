-- ===== src/Sound/Options.antt =====
-- `parseSoundOptions`. net/url parses the query, and Go ranges over its map in any order: the
-- argument is the parsed query in the order of the range, or none if the query does not parse.
use text.Mathlib.Text.{◌==◌}
use entropy_service.Prelude.{
  ◌||◌, not, ◌&&◌, Option, none, some, String, List, [], ◌∷◌, if◌then◌else◌,
}
use entropy_service.Prelude.Int.{ℤ, pos, ltb_ℤ}
use entropy_service.Prelude.Outcome.{Outcome, ok, err}

abbrev pub sound_bloom : String
sound_bloom = "bloom"

abbrev pub sound_chime : String
sound_chime = "chime"

-- `soundOptions`.
pub record SoundOptions : Type 0 where
  pub duration_ms : ℤ
  pub style : String

abbrev pub default_options : SoundOptions
default_options = record { duration_ms = pos 2500; style = sound_bloom }

pub data SoundError : Type 0 where
  bad_query bad_duration bad_style : SoundError
  not_one_value unknown_parameter : String → SoundError

module _ (atoi : String → Option ℤ) where
  abbrev pub with_duration : Option ℤ → SoundOptions → Outcome SoundError SoundOptions
  with_duration none opts = err bad_duration
  with_duration (some n) opts =
      if ltb_ℤ n (pos 250) || ltb_ℤ (pos 5000) n
      then err bad_duration
      else ok (record opts { duration_ms = n })

  abbrev pub with_style : String → SoundOptions → Outcome SoundError SoundOptions
  with_style style opts =
      if not (style == sound_bloom) && not (style == sound_chime)
      then err bad_style
      else ok (record opts { style = style })

  -- The switch over the parameter's name, for its only value.
  abbrev pub with_value : String → String → SoundOptions → Outcome SoundError SoundOptions
  with_value name value opts =
      if value == ""
      then err (not_one_value name)
      else if name == "duration_ms"
      then with_duration (atoi value) opts
      else if name == "style"
      then with_style value opts
      else err (unknown_parameter name)

  abbrev pub with_values : String → List String → SoundOptions → Outcome SoundError SoundOptions
  with_values name [] opts = err (not_one_value name)
  with_values name (value ∷ []) opts = with_value name value opts
  with_values name (value ∷ w ∷ rest) opts = err (not_one_value name)

  abbrev pub next_parameter :
      (SoundOptions → Outcome SoundError SoundOptions)
      → Outcome SoundError SoundOptions
      → Outcome SoundError SoundOptions
  next_parameter again (err e) = err e
  next_parameter again (ok opts) = again opts

  -- The loop over the query.
  unfoldable pub parse_parameters :
      List (String × List String) → SoundOptions → Outcome SoundError SoundOptions
  parse_parameters [] opts = ok opts
  parse_parameters ((name, values) ∷ query) opts =
      next_parameter (parse_parameters query) (with_values name values opts)

  unfoldable pub parse_sound_options :
      Option (List (String × List String)) → Outcome SoundError SoundOptions
  unfolding parse_parameters
  parse_sound_options none = err bad_query
  parse_sound_options (some query) = parse_parameters query default_options
