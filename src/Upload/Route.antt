-- ===== src/Upload/Route.antt =====
-- `uploadHandler`. The media type that package mime parses, the declared length, whether the context
-- is canceled before and after the analysis, and the passes of the limited body are arguments;
-- `is_size_error` says which errors are the limit's own. Writing the report is left out.
use text.Mathlib.Text.{◌==◌}
use entropy_service.Prelude.{ℕ, Bool, false, not, Option, none, some, String, List, if◌then◌else◌}
use entropy_service.Prelude.Int.{ℤ, pos, ltb_ℤ}
use entropy_service.Prelude.Outcome.{Outcome, ok, err}
use entropy_service.Budget.Defs.{Budget, Refusal, Ticket, release}
use entropy_service.Budget.Http.{http_admit}
use entropy_service.Upload.Analyze.{
  UploadError, invalid_limit, empty_upload, unfinished, canceled, source_error, Pass, Report,
  analyze_upload, max_upload_bytes, upload_working_memory,
}

abbrev pub upload_media_type : String
upload_media_type = "application/octet-stream"

pub data UploadReply : Type 0 where
  use_post unsupported_media_type file_too_large : UploadReply
  refused : Refusal → UploadReply
  analysis_canceled incomplete_upload : UploadReply
  analyzed : Report → UploadReply

module _ {E : Type 0} (digest : List ℕ → List ℕ) (is_size_error : E → Bool) where
  -- `errors.As(err, &sizeError)`.
  abbrev pub exceeds_limit : UploadError E → Bool
  exceeds_limit invalid_limit = false
  exceeds_limit empty_upload = false
  exceeds_limit unfinished = false
  exceeds_limit (canceled e) = is_size_error e
  exceeds_limit (source_error e) = is_size_error e

  -- What the handler makes of the analysis.
  abbrev pub reply_of : Bool → Outcome (UploadError E) Report → UploadReply
  reply_of gone (ok report) = analyzed report
  reply_of gone (err e) =
      if gone
      then analysis_canceled
      else if exceeds_limit e
      then file_too_large
      else incomplete_upload

  -- An admitted upload is analyzed, and the deferred release follows.
  abbrev pub analyze_admitted :
      ℤ → List (Pass E) → Bool → Budget × Outcome Refusal Ticket → Budget × UploadReply
  analyze_admitted limit passes gone (b, err r) = (b, refused r)
  analyze_admitted limit passes gone (b, ok t) =
      ((release b t).0, reply_of gone (analyze_upload digest limit passes))

  abbrev pub is_octet_stream : Option String → Bool
  is_octet_stream none = false
  is_octet_stream (some media_type) = media_type == upload_media_type

  unfoldable pub upload_handler :
      ℤ → String → Option String → ℤ → Bool → List (Pass E) → Bool → Budget → Budget × UploadReply
  upload_handler limit method media_type content_length left passes gone b =
      if not (method == "POST")
      then (b, use_post)
      else if not (is_octet_stream media_type)
      then (b, unsupported_media_type)
      else if ltb_ℤ (pos max_upload_bytes) content_length
      then (b, file_too_large)
      else analyze_admitted limit passes gone (http_admit left b (pos upload_working_memory))
