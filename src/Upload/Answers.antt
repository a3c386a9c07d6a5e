-- ===== src/Upload/Answers.antt =====
-- What the upload route answers.
use text.Mathlib.Text.{◌==◌}
use text.Mathlib.TextEquality.{eq_iff}
use entropy_service.Prelude.{
  ℕ, ◌≤◌, ◌<◌, ◌≡◌, refl, ap, Bool, true, false, Bool-cases, inl, inr, Option, none, some, String,
  List, [], ◌∷◌, arith, if◌then◌else◌, length, not, ◌||◌,
}
use entropy_service.Prelude.Int.{ℤ, pos, negsuc, ◌≤ℤ◌, ltb_ℤ, pos_part}
use entropy_service.Prelude.Outcome.{Outcome, ok, err}
use entropy_service.Budget.Defs.{Budget, Refusal, Ticket}
use entropy_service.Budget.Http.{http_admit}
use entropy_service.Budget.Settles.{SameUse, Settles, http_admit-Settles}
use entropy_service.Upload.Analyze.{
  FileAnalysis, no_analysis, absorb, UploadError, empty_upload, Pass, End, more, eof, failed,
  Report, invalid_limit, after_pass, in_context, analyze_from, analyze_upload, max_upload_bytes,
  upload_working_memory,
}
use entropy_service.Upload.Laws.{
  ended, joined, body_of, IsReport, analyze_upload-IsReport, analyze_upload-fails,
}
use entropy_service.Upload.Route.{
  UploadReply, use_post, unsupported_media_type, file_too_large, refused, analysis_canceled,
  incomplete_upload, analyzed, upload_media_type, reply_of, analyze_admitted, is_octet_stream,
  upload_handler,
}

ok_inj : {E A : Type 0} {a b : A} → ◌≡◌ {A = Outcome E A} (ok a) (ok b) → a ≡ b
ok_inj h = cc

true_of_not : (b : Bool) → not b ≡ false → b ≡ true
true_of_not true h = refl
true_of_not false h = cc

-- A body of no bytes is refused, in whatever passes it came.
empty_pass :
    {E : Type 0} (digest : List ℕ → List ℕ) (context : Option E) (chunk : List ℕ) (end : End E)
    → (later : Option (List ℕ)) (again : FileAnalysis → Outcome (UploadError E) Report)
      (r : FileAnalysis)
    → joined context (ended chunk end later) ≡ some []
    → r.total_bytes ≡ length chunk
    → (later ≡ some [] → chunk ≡ [] → again r ≡ err empty_upload)
    → in_context digest context (after_pass digest again r end) ≡ err empty_upload
empty_pass digest (some e) chunk end later again r h z k = cc
empty_pass digest none chunk (failed e) later again r h z k = cc
empty_pass digest none chunk more none again r h z k = cc
empty_pass digest none [] eof later again r h z k = ground (arith, z)
empty_pass digest none (x ∷ chunk) eof later again r h z k = cc
empty_pass digest none [] more (some tail) again r h z k = k h refl
empty_pass digest none (x ∷ chunk) more (some tail) again r h z k = cc

empty_from :
    {E : Type 0} (digest : List ℕ → List ℕ) (limit : ℕ) (passes : List (Pass E)) (r : FileAnalysis)
    → body_of passes ≡ some []
    → r.total_bytes ≡ 0
    → analyze_from digest limit passes r ≡ err empty_upload
unfolding analyze_from body_of absorb
empty_from digest limit [] r h z = cc
empty_from digest limit (p ∷ passes) r h z =
    empty_pass digest p.context p.chunk p.end (body_of passes) (analyze_from digest limit passes)
      (absorb limit p.chunk r) h (omega (arith, z))
      (λ e c.
        empty_from digest limit passes (absorb limit p.chunk r) e (omega (arith, z, ap length c)))

analyze_upload-empty :
    {E : Type 0} (digest : List ℕ → List ℕ) (limit : ℕ) (passes : List (Pass E))
    → body_of passes ≡ some []
    → (e : UploadError E) × (analyze_upload digest (pos limit) passes ≡ err e)
unfolding analyze_upload
analyze_upload-empty digest limit passes h = (
  (if ltb_ℤ (pos limit) (pos 1) || ltb_ℤ (pos max_upload_bytes) (pos limit)
      then invalid_limit
      else empty_upload),
  ground (arith, empty_from digest limit passes no_analysis h refl),
)

-- The result of an analysis, if it is one, is the report of a body that was read to its end.
abbrev pub ReportsBody :
    {E : Type 0} → (List ℕ → List ℕ) → ℤ → List (Pass E) → Outcome (UploadError E) Report → Type 0
ReportsBody digest limit passes (err e) = Unit {0}
ReportsBody digest limit passes (ok out) =
    (body : List ℕ) × (body_of passes ≡ some body)
    × (0 < length body)
    × IsReport digest (pos_part limit) body out

reports_nothing :
    {E : Type 0} (digest : List ℕ → List ℕ) (limit : ℤ) (passes : List (Pass E))
    (r : Outcome (UploadError E) Report)
    → (e : UploadError E) × (r ≡ err e)
    → ReportsBody digest limit passes r
reports_nothing digest limit passes (err e) h = tt
reports_nothing digest limit passes (ok out) (e, h) = cc

reports_something :
    {E : Type 0} (digest : List ℕ → List ℕ) (n : ℕ) (passes : List (Pass E)) (body : List ℕ)
    (r : Outcome (UploadError E) Report)
    → body_of passes ≡ some body
    → 0 < length body
    → (out : Report) × (r ≡ ok out) × IsReport digest n body out
    → ReportsBody digest (pos n) passes r
reports_something digest n passes body (err e) h l (out, same, v) = cc
reports_something digest n passes body (ok out') h l (out, same, v) =
    (body, h, l, rw (ok_inj same) v)

in_range :
    {E : Type 0} (digest : List ℕ → List ℕ) (n : ℕ) (passes : List (Pass E))
    (body : Option (List ℕ))
    → 0 < n
    → n ≤ max_upload_bytes
    → body_of passes ≡ body
    → ReportsBody digest (pos n) passes (analyze_upload digest (pos n) passes)
in_range digest n passes none low high h =
    reports_nothing digest (pos n) passes (analyze_upload digest (pos n) passes)
      (analyze_upload-fails digest n passes h)
in_range digest n passes (some []) low high h =
    reports_nothing digest (pos n) passes (analyze_upload digest (pos n) passes)
      (analyze_upload-empty digest n passes h)
in_range digest n passes (some (b ∷ body)) low high h =
    reports_something digest n passes (b ∷ body) (analyze_upload digest (pos n) passes) h
      (omega arith) (analyze_upload-IsReport digest n passes (b ∷ body) low high h (λ e. cc))

out_of_range :
    {E : Type 0} (digest : List ℕ → List ℕ) (limit : ℤ) (passes : List (Pass E))
    → ltb_ℤ limit (pos 1) || ltb_ℤ (pos max_upload_bytes) limit ≡ true
    → (e : UploadError E) × (analyze_upload digest limit passes ≡ err e)
unfolding analyze_upload
out_of_range digest limit passes h = (invalid_limit, rw h refl)

analyze_upload-ReportsBody :
    {E : Type 0} (digest : List ℕ → List ℕ) (limit : ℤ) (passes : List (Pass E))
    → ReportsBody digest limit passes (analyze_upload digest limit passes)
analyze_upload-ReportsBody digest (negsuc n) passes =
    reports_nothing digest (negsuc n) passes (analyze_upload digest (negsuc n) passes)
      (out_of_range digest (negsuc n) passes (ground arith))
analyze_upload-ReportsBody digest (pos n) passes =
    elim (Bool-cases (ltb_ℤ (pos n) (pos 1) || ltb_ℤ (pos max_upload_bytes) (pos n))) [
      | inl e ↦
          reports_nothing digest (pos n) passes (analyze_upload digest (pos n) passes)
            (out_of_range digest (pos n) passes e)
      | inr e ↦
          in_range digest n passes (body_of passes) (ground (arith, e)) (ground (arith, e)) refl
    ]

module _ {E : Type 0} (digest : List ℕ → List ℕ) (is_size_error : E → Bool) (limit : ℤ)
    (method : String) (media_type : Option String) (content_length : ℤ)
    (passes : List (Pass E)) where
  -- Only a POST of an octet stream that declares no more than the maximum is reported, and the
  -- report is that of a body that was read to its end.
  abbrev pub IsHonestUpload : UploadReply → Type 0
  IsHonestUpload (analyzed out) =
      (method ≡ "POST")
      × (media_type ≡ some upload_media_type)
      × (content_length ≤ℤ pos max_upload_bytes)
      × ReportsBody {E = E} digest limit passes (ok out)
  IsHonestUpload use_post = Unit {0}
  IsHonestUpload unsupported_media_type = Unit {0}
  IsHonestUpload file_too_large = Unit {0}
  IsHonestUpload (refused r) = Unit {0}
  IsHonestUpload analysis_canceled = Unit {0}
  IsHonestUpload incomplete_upload = Unit {0}

  IsHonest-exceeds :
      (gone : Bool) (e : UploadError E)
      → IsHonestUpload (reply_of digest is_size_error gone (err e))
  IsHonest-exceeds gone e = ground arith

  reply_of-IsHonest :
      (gone : Bool) (r : Outcome (UploadError E) Report)
      → method ≡ "POST"
      → media_type ≡ some upload_media_type
      → content_length ≤ℤ pos max_upload_bytes
      → ReportsBody digest limit passes r
      → IsHonestUpload (reply_of digest is_size_error gone r)
  reply_of-IsHonest gone (err e) m t l h = IsHonest-exceeds gone e
  reply_of-IsHonest gone (ok out) m t l h = (m, t, l, h)

  -- The budget is used as before, and the reply is honest.
  abbrev pub Answers : Budget → Budget × UploadReply → Type 0
  Answers b r = SameUse b r.0 × IsHonestUpload r.1

  guard-Answers :
      (test : Bool) (b : Budget) (reply : UploadReply) (next : Budget × UploadReply)
      → IsHonestUpload reply
      → (test ≡ false → Answers b next)
      → Answers b (if test then (b, reply) else next)
  guard-Answers true b reply next h k = (ground arith, h)
  guard-Answers false b reply next h k = k refl

  analyze_admitted-Answers :
      (gone : Bool) (b : Budget) (r : Budget × Outcome Refusal Ticket)
      → Settles b r
      → method ≡ "POST"
      → media_type ≡ some upload_media_type
      → content_length ≤ℤ pos max_upload_bytes
      → Answers b (analyze_admitted digest is_size_error limit passes gone r)
  analyze_admitted-Answers gone b (b', err r) h m t l = (h, tt)
  analyze_admitted-Answers gone b (b', ok k) h m t l = (
    h,
    reply_of-IsHonest gone (analyze_upload digest limit passes) m t l
        (analyze_upload-ReportsBody digest limit passes),
  )

  octet_stream :
      (t : Option String)
      → is_octet_stream digest is_size_error t ≡ true
      → t ≡ some upload_media_type
  octet_stream none h = cc
  octet_stream (some t) h = ap some ((eq_iff t upload_media_type).0 h)

  -- On every path, errors and cancellation included, the upload route gives back the admission and
  -- the memory that it took. It reports only on a POST whose media type is application/octet-stream
  -- and whose declared length is at most 32 MiB, and what it reports is the statistics of a body
  -- that has at least one byte and was read to its end.
  pub upload_handler-Answers :
      (left : Bool) (gone : Bool) (b : Budget)
      → Answers b (
          upload_handler digest is_size_error limit method media_type content_length left passes
            gone b)
  unfolding upload_handler
  upload_handler-Answers left gone b = guard-Answers (not (method == "POST")) b use_post _ tt (λ m.
      guard-Answers (not (is_octet_stream digest is_size_error media_type)) b unsupported_media_type
        _ tt
        (λ t.
          guard-Answers (ltb_ℤ (pos max_upload_bytes) content_length) b file_too_large _ tt (λ l.
            analyze_admitted-Answers gone b (http_admit left b (pos upload_working_memory))
              (http_admit-Settles left b (pos upload_working_memory))
              ((eq_iff method "POST").0 (true_of_not (method == "POST") m))
              (octet_stream media_type
                (true_of_not (is_octet_stream digest is_size_error media_type) t))
              (ground (arith, l)))))
