-- ===== src/Request/Query.antt =====
-- The parsers of query parameters, of entropy-server.go and ws_byte_format.go.
use text.Mathlib.Text.{◌==◌}
use entropy_service.Prelude.{
  Bool, true, false, ◌||◌, ◌&&◌, Option, none, some, String, List, [], ◌∷◌, if◌then◌else◌,
}
use entropy_service.Prelude.Int.{ℤ, pos, leb_ℤ, ltb_ℤ, min_ℤ}
use entropy_service.Prelude.Outcome.{Outcome, ok, err, ◌>>=◌}

abbrev pub Query : Type 0
Query = List (String × List String)

-- "%s must be supplied once", "bytes must be between 1 and %d", "invalid %s value", and the message
-- of `parseByteFrameFormat`.
pub data QueryError : Type 0 where
  not_once invalid_value : String → QueryError
  byte_range : ℤ → QueryError
  bad_format : QueryError

-- `q[name]`, and whether it is present.
unfoldable pub values_of : String → Query → Option (List String)
values_of name [] = none
values_of name ((key, values) ∷ rest) = if key == name then some values else values_of name rest

pub record ClientPrefs : Type 0 where
  pub bytes : ℤ
  pub refresh : ℤ
  pub words : ℤ

pub data ByteFrameFormat : Type 0 where
  json compact hash : ByteFrameFormat

abbrev format_of : Option (List String) → Outcome QueryError ByteFrameFormat
format_of none = ok json
format_of (some []) = err bad_format
format_of (some (v ∷ [])) =
    if v == "json"
    then ok json
    else if v == "compact"
    then ok compact
    else if v == "hash"
    then ok hash
    else err bad_format
format_of (some (v ∷ w ∷ rest)) = err bad_format

-- `parseByteFrameFormat`.
unfoldable pub parse_byte_frame_format : Query → Outcome QueryError ByteFrameFormat
parse_byte_frame_format query = format_of (values_of "format" query)

module _ (atoi : String → Option ℤ) where
  -- The tail of `extractByteCount`: the number, if it parses and lies in the range.
  abbrev pub byte_count_of : ℤ → Option ℤ → Outcome QueryError ℤ
  byte_count_of max_bytes none = err (byte_range max_bytes)
  byte_count_of max_bytes (some n) =
      if leb_ℤ n (pos 0) || ltb_ℤ max_bytes n then err (byte_range max_bytes) else ok n

  abbrev pub byte_count_in : ℤ → ℤ → Option (List String) → Outcome QueryError ℤ
  byte_count_in default_bytes max_bytes none = ok (min_ℤ default_bytes max_bytes)
  byte_count_in default_bytes max_bytes (some []) = err (not_once "bytes")
  byte_count_in default_bytes max_bytes (some (v ∷ [])) = byte_count_of max_bytes (atoi v)
  byte_count_in default_bytes max_bytes (some (v ∷ w ∷ rest)) = err (not_once "bytes")

  -- `extractByteCount`.
  unfoldable pub extract_byte_count : Query → ℤ → ℤ → Outcome QueryError ℤ
  extract_byte_count query default_bytes max_bytes =
      byte_count_in default_bytes max_bytes (values_of "bytes" query)

  -- One round of the loop over the fields `words` and `refresh`; a maximum of 0 is none, unless the
  -- caller is `wsWordsHandler`, whose every field has one (`always`).
  abbrev pub field_value : Bool → String → ℤ → Option ℤ → Outcome QueryError ℤ
  field_value always name max none = err (invalid_value name)
  field_value always name max (some v) =
      if leb_ℤ v (pos 0) || ((always || ltb_ℤ (pos 0) max) && ltb_ℤ max v)
      then err (invalid_value name)
      else ok v

  abbrev pub field_in : Bool → String → ℤ → ℤ → Option (List String) → Outcome QueryError ℤ
  field_in always name max current none = ok current
  field_in always name max current (some []) = err (not_once name)
  field_in always name max current (some (v ∷ [])) = field_value always name max (atoi v)
  field_in always name max current (some (v ∷ w ∷ rest)) = err (not_once name)

  -- What a cookie puts in place of the defaults: each field only if it is in range.
  abbrev pub with_cookie : ℤ → ℤ → Option ClientPrefs → ClientPrefs → ClientPrefs
  with_cookie max_bytes max_words none prefs = prefs
  with_cookie max_bytes max_words (some c) prefs = record {
    bytes = if ltb_ℤ (pos 0) c.bytes && leb_ℤ c.bytes max_bytes then c.bytes else prefs.bytes;
    refresh = if ltb_ℤ (pos 0) c.refresh then c.refresh else prefs.refresh;
    words = if ltb_ℤ (pos 0) c.words && leb_ℤ c.words max_words then c.words else prefs.words;
  }

  abbrev pub starting_prefs : ℤ → ℤ → Bool → Option ClientPrefs → ClientPrefs
  starting_prefs max_bytes max_words false cookie = record {
    bytes = min_ℤ (pos 2097152) max_bytes;
    refresh = pos 500;
    words = max_words;
  }
  starting_prefs max_bytes max_words true cookie = with_cookie max_bytes max_words cookie (record {
    bytes = min_ℤ (pos 524288) max_bytes;
    refresh = pos 500;
    words = min_ℤ (pos 3) max_words;
  })

  -- `extractPrefs`; `cookie` is what `getPrefsCookie` gives, none on its error.
  unfoldable pub extract_prefs :
      Query → ℤ → ℤ → Bool → Option ClientPrefs → Outcome QueryError ClientPrefs
  unfolding extract_byte_count
  extract_prefs query max_bytes max_words has_cookie cookie =
      let prefs = starting_prefs max_bytes max_words has_cookie cookie in
      extract_byte_count query prefs.bytes max_bytes >>= λ bytes.
      field_in false "words" max_words prefs.words (values_of "words" query) >>= λ words.
      field_in false "refresh" (pos 0) prefs.refresh (values_of "refresh" query) >>= λ refresh.
      ok (record { bytes = bytes; refresh = refresh; words = words })

  -- The fields of `wsWordsHandler`: how many words, and the interval in milliseconds.
  unfoldable pub extract_words_fields : Query → ℤ → ℤ → Outcome QueryError (ℤ × ℤ)
  extract_words_fields query max_words default_refresh =
      field_in true "words" max_words max_words (values_of "words" query) >>= λ quantity.
      field_in true "refresh" (pos 60000) default_refresh (values_of "refresh" query) >>= λ refresh.
      ok (quantity, refresh)

  -- The refresh override of `wsBytesHandler` and `wsBinaryHandler`, which ignores a bad value. `v`
  -- is `Query().Get("refresh")`, "" where it is absent.
  abbrev pub first_value : Option (List String) → String
  first_value none = ""
  first_value (some []) = ""
  first_value (some (v ∷ rest)) = v

  abbrev pub refresh_of : ℤ → Option ℤ → ℤ
  refresh_of default_refresh none = default_refresh
  refresh_of default_refresh (some v) =
      if ltb_ℤ (pos 0) v && leb_ℤ v (pos 60000) then v else default_refresh

  unfoldable pub override_refresh : Query → ℤ → ℤ
  override_refresh query default_refresh =
      let v = first_value (values_of "refresh" query) in
      if v == "" then default_refresh else refresh_of default_refresh (atoi v)
