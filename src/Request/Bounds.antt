-- ===== src/Request/Bounds.antt =====
-- Every value that a query or a cookie can bring lies in the configured range.
use entropy_service.Prelude.{◌≡◌, Bool, true, false, Option, String, List, arith}
use entropy_service.Prelude.Int.{ℤ, pos, ◌≤ℤ◌}
use entropy_service.Prelude.Outcome.{ok, >>=_passed}
use entropy_service.Request.Query.{
  Query, values_of, ClientPrefs, extract_byte_count, extract_prefs, field_in, starting_prefs,
  extract_words_fields, byte_count_in,
}

abbrev pub Within : ℤ → ℤ → ℤ → Type 0
Within low high n = (low ≤ℤ n) × (n ≤ℤ high)

module _ (atoi : String → Option ℤ) where
  byte_count_in_range :
      (default_bytes max_bytes : ℤ) (values : Option (List String)) {n : ℤ}
      → pos 1 ≤ℤ default_bytes
      → pos 1 ≤ℤ max_bytes
      → byte_count_in atoi default_bytes max_bytes values ≡ ok n
      → Within (pos 1) max_bytes n
  byte_count_in_range default_bytes max_bytes values h k e = ground arith

  -- With a default and a maximum of at least 1, a byte count that is accepted is at least 1 and
  -- at most the configured maximum, whether it came from the query or is the default.
  pub extract_byte_count_range :
      (query : Query) (default_bytes max_bytes : ℤ) {n : ℤ}
      → pos 1 ≤ℤ default_bytes
      → pos 1 ≤ℤ max_bytes
      → extract_byte_count atoi query default_bytes max_bytes ≡ ok n
      → Within (pos 1) max_bytes n
  unfolding extract_byte_count
  extract_byte_count_range query default_bytes max_bytes h k e =
      byte_count_in_range default_bytes max_bytes (values_of "bytes" query) h k e

  starting_prefs_range :
      (max_bytes max_words : ℤ) (has_cookie : Bool) (cookie : Option ClientPrefs)
      → pos 1 ≤ℤ max_bytes
      → pos 1 ≤ℤ max_words
      → let p = starting_prefs atoi max_bytes max_words has_cookie cookie in
        Within (pos 1) max_bytes p.bytes × Within (pos 1) max_words p.words × (pos 1 ≤ℤ p.refresh)
  starting_prefs_range max_bytes max_words has_cookie cookie h k = ground arith

  field_in_range :
      (always : Bool) (name : String) (max current : ℤ) (values : Option (List String)) {v : ℤ}
      → pos 1 ≤ℤ max
      → Within (pos 1) max current
      → field_in atoi always name max current values ≡ ok v
      → Within (pos 1) max v
  field_in_range always name max current values h k e = ground arith

  field_in_positive :
      (name : String) (current : ℤ) (values : Option (List String)) {v : ℤ}
      → pos 1 ≤ℤ current
      → field_in atoi false name (pos 0) current values ≡ ok v
      → pos 1 ≤ℤ v
  field_in_positive name current values h e = ground arith

  -- With maxima of at least 1, preferences that are accepted hold a byte count from 1 to the
  -- maximum, a word count from 1 to the maximum and a positive refresh interval, whatever the
  -- cookie and the query hold.
  pub extract_prefs_range :
      (query : Query) (max_bytes max_words : ℤ) (has_cookie : Bool) (cookie : Option ClientPrefs)
      → {prefs : ClientPrefs} → pos 1 ≤ℤ max_bytes
      → pos 1 ≤ℤ max_words
      → extract_prefs atoi query max_bytes max_words has_cookie cookie ≡ ok prefs
      → Within (pos 1) max_bytes prefs.bytes
        × Within (pos 1) max_words prefs.words
        × (pos 1 ≤ℤ prefs.refresh)
  unfolding extract_prefs
  extract_prefs_range query max_bytes max_words has_cookie cookie {prefs} h k e =
      let start = starting_prefs atoi max_bytes max_words has_cookie cookie in
      let range = starting_prefs_range max_bytes max_words has_cookie cookie h k in
      let (bytes, e1, r1) =
        >>=_passed (byte_count_in atoi start.bytes max_bytes (values_of "bytes" query)) _ e in
      let (words, e2, r2) =
        >>=_passed (field_in atoi false "words" max_words start.words (values_of "words" query)) _
          r1 in
      let (refresh, e3, r3) =
        >>=_passed (field_in atoi false "refresh" (pos 0) start.refresh (values_of "refresh" query))
          _ r2 in
      let in_bytes =
        byte_count_in_range start.bytes max_bytes (values_of "bytes" query) range.0.0 h e1 in
      let in_words =
        field_in_range false "words" max_words start.words (values_of "words" query) k range.1 e2 in
      let in_refresh =
        field_in_positive "refresh" start.refresh (values_of "refresh" query) range.2 e3 in
      ground arith

  -- With a maximum of at least 1 and a default interval in range, the accepted words and interval
  -- of a WebSocket lie in their ranges: 1 to the maximum, and 1 to 60000 ms.
  pub extract_words_fields_range :
      (query : Query) (max_words default_refresh : ℤ) {fields : ℤ × ℤ}
      → pos 1 ≤ℤ max_words
      → Within (pos 1) (pos 60000) default_refresh
      → extract_words_fields atoi query max_words default_refresh ≡ ok fields
      → Within (pos 1) max_words fields.0 × Within (pos 1) (pos 60000) fields.1
  unfolding extract_words_fields
  extract_words_fields_range query max_words default_refresh {fields} h k e =
      let (quantity, e1, r1) =
        >>=_passed (field_in atoi true "words" max_words max_words (values_of "words" query)) _ e in
      let (refresh, e2, r2) =
        >>=_passed
          (field_in atoi true "refresh" (pos 60000) default_refresh (values_of "refresh" query)) _
          r1 in
      let in_words =
        field_in_range true "words" max_words max_words (values_of "words" query) h (omega arith)
          e1 in
      let in_refresh =
        field_in_range true "refresh" (pos 60000) default_refresh (values_of "refresh" query)
          (omega arith) k e2 in
      ground arith
