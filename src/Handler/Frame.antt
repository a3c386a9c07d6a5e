-- ===== src/Handler/Frame.antt =====
-- `writeByteFrame` and `encodeByteFrame` of ws_byte_format.go. SHA-256, hexadecimal, base64 and
-- JSON are packages; the writer of a message accepts each write, and its close, or fails.
use entropy_service.Prelude.{ℕ, Bool, true, false, String, List, [], ◌++◌, length, if◌then◌else◌}
use entropy_service.Prelude.Outcome.{Outcome, ok, err}
use entropy_service.Request.Query.{ByteFrameFormat, json, compact, hash}

-- The two encoders are those of the structs with the fields hex, base64 and hash, and hash and bytes.
pub record FramePackages : Type 0 where
  pub sha256 : List ℕ → List ℕ
  pub hex : List ℕ → String
  pub base64 : List ℕ → String
  pub json_data : String → String → String → List ℕ
  pub json_hash : String → ℕ → List ℕ

pub data Kind : Type 0 where
  binary_frame text_frame : Kind

-- What a connection does with a message: whether it can begin, whether each write succeeds, and the
-- close.
pub record Writer : Type 0 where
  pub begins : Bool
  pub first_write : Bool
  pub second_write : Bool
  pub closes : Bool

-- A frame on its way: its bytes so far, and whether a write failed.
pub record Encoded : Type 0 where
  pub bytes : List ℕ
  pub failed : Bool

module _ (k : FramePackages) where
  abbrev pub once : Bool → List ℕ → Encoded
  once written payload =
      if written
      then record { bytes = payload; failed = false }
      else record { bytes = []; failed = true }

  -- The second write happens only after the first.
  abbrev pub twice : Bool → Bool → List ℕ → List ℕ → Encoded
  twice first second a b =
      if first
      then if second
        then record { bytes = a ++ b; failed = false }
        else record { bytes = a; failed = true }
      else record { bytes = []; failed = true }

  unfoldable pub encode_byte_frame : Writer → List ℕ → ByteFrameFormat → Encoded
  encode_byte_frame w payload compact =
      twice w.first_write w.second_write (k.sha256 payload) payload
  encode_byte_frame w payload hash =
      once w.first_write (k.json_hash (k.hex (k.sha256 payload)) (length payload))
  encode_byte_frame w payload json =
      once w.first_write (k.json_data (k.hex payload) (k.base64 payload) (k.hex (k.sha256 payload)))

  abbrev pub kind_of : ByteFrameFormat → Kind
  kind_of compact = binary_frame
  kind_of hash = text_frame
  kind_of json = text_frame

  -- The message, unless it cannot begin, or a write or the close fails; the close is tried either way.
  unfoldable pub write_byte_frame :
      Writer → List ℕ → ByteFrameFormat → Outcome (Unit {0}) (Kind × List ℕ)
  unfolding encode_byte_frame
  write_byte_frame w payload format =
      let out = encode_byte_frame w payload format in
      if w.begins
      then if out.failed
        then err tt
        else if w.closes
        then ok (kind_of format, out.bytes)
        else err tt
      else err tt
