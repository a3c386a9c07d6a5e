-- ===== src/Handler/FrameLaws.antt =====
-- What a frame that was written holds, and what the JSON route leaves behind.
use entropy_service.Prelude.{
  ℕ, zero, suc, ◌≡◌, refl, ap, ◌⊎◌, Bool, true, false, Option, String, List, [], ◌∷◌, ◌++◌, arith,
  length, take, drop,
}
use entropy_service.Prelude.Int.{ℤ, pos}
use entropy_service.Prelude.Outcome.{Outcome, ok, err}
use entropy_service.Drbg.Cipher.{Cipher}
use entropy_service.Request.Query.{
  Query, QueryError, ByteFrameFormat, json, compact, hash, extract_byte_count,
  parse_byte_frame_format,
}
use entropy_service.Handler.Http.{Server}
use entropy_service.Handler.Socket.{
  Tick, SocketReply, is_json, socket_of, with_format, ws_bytes_handler,
}
use entropy_service.Handler.Laws.{Frees, socket_of-Frees}
use entropy_service.Handler.Frame.{
  FramePackages, Kind, binary_frame, text_frame, Writer, encode_byte_frame, write_byte_frame,
}

take-append_exactly : (a b : List ℕ) (n : ℕ) → length a ≡ n → take n (a ++ b) ≡ a
take-append_exactly [] b zero h = refl
take-append_exactly [] b (suc n) h = absurd (omega (arith, h))
take-append_exactly (x ∷ a) b zero h = absurd (omega (arith, h))
take-append_exactly (x ∷ a) b (suc n) h = ap (◌∷◌ x) (take-append_exactly a b n (omega (arith, h)))

drop-append_exactly : (a b : List ℕ) (n : ℕ) → length a ≡ n → drop n (a ++ b) ≡ b
drop-append_exactly [] b zero h = refl
drop-append_exactly [] b (suc n) h = absurd (omega (arith, h))
drop-append_exactly (x ∷ a) b zero h = absurd (omega (arith, h))
drop-append_exactly (x ∷ a) b (suc n) h = drop-append_exactly a b n (omega (arith, h))

module _ (k : FramePackages) (digest_length : (bytes : List ℕ) → length (k.sha256 bytes) ≡ 32) where
  -- What a client finds in a frame.
  abbrev pub IsFrame : List ℕ → ByteFrameFormat → Kind × List ℕ → Type 0
  IsFrame payload compact (kind, bytes) =
      (kind ≡ binary_frame) × (take 32 bytes ≡ k.sha256 payload) × (drop 32 bytes ≡ payload)
  IsFrame payload hash (kind, bytes) =
      (kind ≡ text_frame) × (bytes ≡ k.json_hash (k.hex (k.sha256 payload)) (length payload))
  IsFrame payload json (kind, bytes) =
      (kind ≡ text_frame)
      × (bytes ≡ k.json_data (k.hex payload) (k.base64 payload) (k.hex (k.sha256 payload)))

  abbrev pub Fails : Writer → Type 0
  Fails w =
      (w.begins ≡ false) ⊎ (w.first_write ≡ false) ⊎ (w.second_write ≡ false) ⊎ (w.closes ≡ false)

  abbrev pub Writes :
      Writer → List ℕ → ByteFrameFormat → Outcome (Unit {0}) (Kind × List ℕ) → Type 0
  Writes w payload format (err e) = Fails w
  Writes w payload format (ok frame) =
      IsFrame payload format frame × (w.begins ≡ true) × (w.first_write ≡ true) × (w.closes ≡ true)

  compact-IsFrame :
      (payload : List ℕ) → IsFrame payload compact (binary_frame, k.sha256 payload ++ payload)
  compact-IsFrame payload = (
    refl,
    take-append_exactly (k.sha256 payload) payload 32 (digest_length payload),
    drop-append_exactly (k.sha256 payload) payload 32 (digest_length payload),
  )

  -- If SHA-256 gives 32 bytes: a frame that is written without an error is whole, in its format: a
  -- compact one is binary, and its first 32 bytes are the digest of the rest, which is the payload;
  -- the others are text. An error is given only when the message could not begin, a write failed or
  -- the close did.
  pub write_byte_frame-Writes :
      (w : Writer) (payload : List ℕ) (format : ByteFrameFormat)
      → Writes w payload format (write_byte_frame k w payload format)
  unfolding write_byte_frame encode_byte_frame
  write_byte_frame-Writes w payload compact = ground (arith, compact-IsFrame payload)
  write_byte_frame-Writes w payload hash = ground arith
  write_byte_frame-Writes w payload json = ground arith

module _ {Block Stream : Type 0} (c : Cipher Block Stream) where
  with_format-Frees :
      (next : ByteFrameFormat → Server Stream × SocketReply) (s : Server Stream)
      (f : Outcome QueryError ByteFrameFormat)
      → ((format : ByteFrameFormat) → Frees c s (next format))
      → Frees c s (with_format c next s f)
  with_format-Frees next s (err e) h = (ground arith, refl)
  with_format-Frees next s (ok format) h = h format

  -- However a WebSocket of encoded frames is refused, fails to upgrade, is served or ends, its
  -- admission and its memory are given back, and the HTTP budget is left alone.
  pub ws_bytes_handler-Frees :
      (atoi : String → Option ℤ) (query : Query) (max_bytes : ℤ) (canceled upgrade : Bool)
      (ticks : List Tick) (s : Server Stream)
      → Frees c s (ws_bytes_handler c atoi query max_bytes canceled upgrade ticks s)
  unfolding ws_bytes_handler
  ws_bytes_handler-Frees atoi query max_bytes canceled upgrade ticks s =
      with_format-Frees
        (λ format.
          socket_of c (is_json c format) ticks upgrade canceled s
            (extract_byte_count atoi query (pos 2048) max_bytes))
        s (parse_byte_frame_format query)
        (λ format.
          socket_of-Frees c (is_json c format) ticks upgrade canceled s
            (extract_byte_count atoi query (pos 2048) max_bytes))
