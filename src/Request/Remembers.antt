-- ===== src/Request/Remembers.antt =====
-- The preferences of a request are those of the next one.
use entropy_service.Prelude.{
  ◌≡◌, Bool, true, ◌&&◌, Option, none, some, String, List, [], ◌∷◌, arith, if◌then◌else◌,
}
use entropy_service.Prelude.Int.{ℤ, pos, ◌≤ℤ◌, min_ℤ, leb_ℤ, ltb_ℤ}
use entropy_service.Prelude.Outcome.{ok}
use entropy_service.Request.Query.{Query, ClientPrefs, values_of, extract_byte_count, extract_prefs}
use entropy_service.Request.Bounds.{Within, extract_prefs_range}
use entropy_service.Request.Cookie.{
  CookieCodec, DecodesEncoded, Cookie, set_prefs_cookie, get_prefs_cookie,
}

-- What a browser sends back: the name and the value.
abbrev pub sent_back : Option Cookie → List (String × String)
sent_back none = []
sent_back (some cookie) = (cookie.name, cookie.value) ∷ []

get_prefs_cookie-set_prefs_cookie :
    (codec : CookieCodec)
    → DecodesEncoded codec
    → (prefs : ClientPrefs)
    → get_prefs_cookie codec (sent_back (set_prefs_cookie codec prefs)) ≡ some prefs
unfolding get_prefs_cookie set_prefs_cookie
get_prefs_cookie-set_prefs_cookie codec doc prefs =
    let (bytes, m, u) = doc.marshals prefs in rw m (rw (doc.decodes bytes) u)

kept_bytes :
    (x most other : ℤ)
    → Within (pos 1) most x
    → min_ℤ (if ltb_ℤ (pos 0) x && leb_ℤ x most then x else other) most ≡ x
kept_bytes x most other h = ground (arith, h)

kept_words :
    (x most other : ℤ)
    → Within (pos 1) most x
    → (if ltb_ℤ (pos 0) x && leb_ℤ x most then x else other) ≡ x
kept_words x most other h = ground (arith, h)

kept_refresh : (x other : ℤ) → pos 1 ≤ℤ x → (if ltb_ℤ (pos 0) x then x else other) ≡ x
kept_refresh x other h = ground (arith, h)

-- Preferences in range, kept by a cookie, are those of a request without parameters.
kept :
    (atoi : String → Option ℤ) (max_bytes max_words : ℤ) (prefs : ClientPrefs)
    → Within (pos 1) max_bytes prefs.bytes
    → Within (pos 1) max_words prefs.words
    → pos 1 ≤ℤ prefs.refresh
    → extract_prefs atoi [] max_bytes max_words true (some prefs) ≡ ok prefs
unfolding extract_prefs values_of extract_byte_count
kept atoi max_bytes max_words prefs b w r = λ i. ok (record {
  bytes = kept_bytes prefs.bytes max_bytes (min_ℤ (pos 524288) max_bytes) b i;
  refresh = kept_refresh prefs.refresh (pos 500) r i;
  words = kept_words prefs.words max_words (min_ℤ (pos 3) max_words) w i;
})

-- If JSON and base64 give back what they encoded, and both maxima are at least 1: the preferences
-- of any request that is accepted, set as a cookie that is sent back, are exactly those of the next
-- request with the same maxima and no parameters.
pub extract_prefs-remembers :
    (codec : CookieCodec)
    → DecodesEncoded codec
    → (atoi : String → Option ℤ) (query : Query) (max_bytes max_words : ℤ) (has_cookie : Bool)
      (cookie : Option ClientPrefs)
    → {prefs : ClientPrefs} → pos 1 ≤ℤ max_bytes
    → pos 1 ≤ℤ max_words
    → extract_prefs atoi query max_bytes max_words has_cookie cookie ≡ ok prefs
    → extract_prefs atoi [] max_bytes max_words true
        (get_prefs_cookie codec (sent_back (set_prefs_cookie codec prefs)))
      ≡ ok prefs
extract_prefs-remembers codec doc atoi query max_bytes max_words has_cookie cookie {prefs} h k e =
    let range = extract_prefs_range atoi query max_bytes max_words has_cookie cookie h k e in
    rw (get_prefs_cookie-set_prefs_cookie codec doc prefs)
      (kept atoi max_bytes max_words prefs range.0 range.1 range.2)
