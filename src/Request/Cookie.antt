-- ===== src/Request/Cookie.antt =====
-- `setPrefsCookie` and `getPrefsCookie`. JSON and base64 are packages: they may fail, and what they are
-- relied on for is that decoding gives back what was encoded.
use text.Mathlib.Text.{◌==◌}
use entropy_service.Prelude.{
  ℕ, ◌≡◌, Bool, true, Option, none, some, String, List, [], ◌∷◌, if◌then◌else◌,
}
use entropy_service.Request.Query.{ClientPrefs}

pub record CookieCodec : Type 0 where
  pub marshal : ClientPrefs → Option (List ℕ)
  pub unmarshal : List ℕ → Option ClientPrefs
  pub encode : List ℕ → String
  pub decode : String → Option (List ℕ)

-- The documented round trips of the two packages.
pub record DecodesEncoded (codec : CookieCodec) : Type 0 where
  pub marshals :
      (prefs : ClientPrefs)
      → (bytes : List ℕ) × (codec.marshal prefs ≡ some bytes) × (codec.unmarshal bytes ≡ some prefs)
  pub decodes : (bytes : List ℕ) → codec.decode (codec.encode bytes) ≡ some bytes

-- `http.Cookie`, with the attributes that are set.
pub record Cookie : Type 0 where
  pub name : String
  pub value : String
  pub path : String
  pub http_only : Bool
  pub same_site_lax : Bool
  pub max_age : ℕ

abbrev pub prefs_cookie : String
prefs_cookie = "entropy_prefs"

module _ (codec : CookieCodec) where
  -- The cookie that is set, if the preferences can be encoded.
  abbrev pub cookie_of : Option (List ℕ) → Option Cookie
  cookie_of none = none
  cookie_of (some bytes) = some (record {
    name = prefs_cookie;
    value = codec.encode bytes;
    path = "/";
    http_only = true;
    same_site_lax = true;
    max_age = 86400;
  })

  unfoldable pub set_prefs_cookie : ClientPrefs → Option Cookie
  set_prefs_cookie prefs = cookie_of (codec.marshal prefs)

  -- `r.Cookie(name)`: the first of that name among the request's cookies.
  abbrev pub value_of : String → List (String × String) → Option String
  value_of name [] = none
  value_of name ((key, value) ∷ cookies) =
      let rest = value_of name cookies in if key == name then some value else rest

  abbrev pub prefs_of : Option (List ℕ) → Option ClientPrefs
  prefs_of none = none
  prefs_of (some bytes) = codec.unmarshal bytes

  abbrev pub decoded : Option String → Option ClientPrefs
  decoded none = none
  decoded (some value) = prefs_of (codec.decode value)

  unfoldable pub get_prefs_cookie : List (String × String) → Option ClientPrefs
  get_prefs_cookie cookies = decoded (value_of prefs_cookie cookies)
