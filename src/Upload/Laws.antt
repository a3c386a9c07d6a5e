-- ===== src/Upload/Laws.antt =====
-- The report of a body, in any chunks.
use entropy_service.Prelude.{
  ℕ, ◌+◌, ◌-◌, ◌*◌, ◌≤◌, ◌<◌, ◌||◌, ◌≡◌, ◌≢◌, refl, ap, ◌∙◌, sym, Option, none, some, List, [], ◌∷◌,
  ◌++◌, append_assoc, arith, if◌then◌else◌, length, take, min,
}
use entropy_service.Prelude.Int.{pos, ltb_ℤ}
use entropy_service.Prelude.Outcome.{Outcome, ok, err}
use entropy_service.Upload.Analyze.{
  FileAnalysis, no_analysis, absorb, upload_preview_bytes, UploadError, invalid_limit, unfinished,
  canceled, source_error, Pass, End, more, eof, failed, Report, report, after_pass, in_context,
  analyze_from, analyze_upload, max_upload_bytes,
}
use entropy_service.Upload.Chunks.{
  count, ones_of, Describes, ones_count8-le, take_none, absorb-Describes,
}

-- The bytes that a run of passes delivers up to `io.EOF`, if nothing cancels or fails before.
abbrev pub ended : {E : Type 0} → List ℕ → End E → Option (List ℕ) → Option (List ℕ)
ended chunk eof later = some chunk
ended chunk (failed e) later = none
ended chunk more none = none
ended chunk more (some rest) = some (chunk ++ rest)

abbrev pub joined : {E : Type 0} → Option E → Option (List ℕ) → Option (List ℕ)
joined (some e) body = none
joined none body = body

unfoldable pub body_of : {E : Type 0} → List (Pass E) → Option (List ℕ)
body_of [] = none
body_of (p ∷ passes) = joined p.context (ended p.chunk p.end (body_of passes))

pub some_inj : {A : Type 0} {a b : A} → some a ≡ some b → a ≡ b
some_inj h = cc

pub ones_of-le : (bytes : List ℕ) → ones_of bytes ≤ 8 * length bytes
unfolding ones_of
ones_of-le [] = omega arith
ones_of-le (v ∷ bytes) = omega (arith, ones_of-le bytes, ones_count8-le v)

module _ (digest : List ℕ → List ℕ) (limit : ℕ) where
  -- What is reported of a body: the statistics of its first `limit` bytes, with the zero bits those
  -- that are not ones, and the digest of all of it.
  pub record IsReport (body : List ℕ) (out : Report) : Type 0 where
    pub describes : Describes limit body out.analysis
    pub zeros : out.zeros + ones_of (take limit body) ≡ 8 * length (take limit body)
    pub sha256 : out.sha256 ≡ digest body

  abbrev Reports : {E : Type 0} → List ℕ → Outcome (UploadError E) Report → Type 0
  Reports body result = (out : Report) × (result ≡ ok out) × IsReport body out

  report-Reports :
      {E : Type 0} (body : List ℕ) (r : FileAnalysis)
      → Describes limit body r
      → body ≢ []
      → Reports body (report {E = E} digest r)
  report-Reports [] r v h = absurd (h refl)
  report-Reports (b ∷ body) r v h = (
    record { analysis = r; zeros = r.analyzed_bytes * 8 - r.ones; sha256 = digest r.written },
    ground (arith, v.total),
    record {
      describes = v;
      zeros = omega (arith, v.analyzed, v.ones, ones_of-le (take limit (b ∷ body)));
      sha256 = ap digest v.written;
    },
  )

  -- One pass, from what the passes behind it do.
  pass-Reports :
      {E : Type 0} (context : Option E) (chunk : List ℕ) (end : End E) (later : Option (List ℕ))
      → (again : FileAnalysis → Outcome (UploadError E) Report) (read : List ℕ) (r : FileAnalysis)
      → {rest : List ℕ} → Describes limit (read ++ chunk) r
      → joined context (ended chunk end later) ≡ some rest
      → read ++ rest ≢ []
      → ((tail : List ℕ)
          → later ≡ some tail
          → (read ++ chunk) ++ tail ≢ []
          → Reports ((read ++ chunk) ++ tail) (again r))
      → Reports (read ++ rest) (in_context digest context (after_pass digest again r end))
  pass-Reports (some e) chunk end later again read r v h ne k = cc
  pass-Reports none chunk (failed e) later again read r v h ne k = cc
  pass-Reports none chunk more none again read r v h ne k = cc
  pass-Reports none chunk eof later again read r {rest} v h ne k =
      let same : chunk ≡ rest = some_inj h in
      rw (← same) (report-Reports (read ++ chunk) r v (rw (← same) at ne))
  pass-Reports none chunk more (some tail) again read r {rest} v h ne k =
      let same : (read ++ chunk) ++ tail ≡ read ++ rest =
        append_assoc read chunk tail ∙ ap (◌++◌ read) (some_inj h) in
      rw (← same) (k tail refl (rw (← same) at ne))

  analyze_from-Reports :
      {E : Type 0} (passes : List (Pass E)) (read : List ℕ) (r : FileAnalysis) {rest : List ℕ}
      → Describes limit read r
      → body_of passes ≡ some rest
      → read ++ rest ≢ []
      → Reports (read ++ rest) (analyze_from digest limit passes r)
  unfolding analyze_from body_of
  analyze_from-Reports [] read r v h ne = cc
  analyze_from-Reports (p ∷ passes) read r v h ne =
      pass-Reports p.context p.chunk p.end (body_of passes) (analyze_from digest limit passes) read
        (absorb limit p.chunk r) (absorb-Describes limit read p.chunk r v) h ne
        (λ tail e ne'.
          analyze_from-Reports passes (read ++ p.chunk) (absorb limit p.chunk r)
            (absorb-Describes limit read p.chunk r v) e ne')

start : (limit : ℕ) → Describes limit [] no_analysis
unfolding count ones_of
start limit = record {
  total = refl;
  written = refl;
  analyzed = sym (ap length (take_none {A = ℕ} limit));
  histogram = λ w. sym (ap (count w) (take_none {A = ℕ} limit));
  ones = sym (ap ones_of (take_none {A = ℕ} limit));
  preview = sym (take_none {A = ℕ} (min limit upload_preview_bytes));
}

-- With a limit from 1 to the maximum, a body of at least one byte that is read to its end without
-- cancellation is reported, in whatever chunks it came: the total and the digest are those of the
-- whole body; the histogram, the one bits and the zero bits those of its first `limit` bytes, and
-- the preview its first 2048 of those.
pub analyze_upload-IsReport :
    {E : Type 0} (digest : List ℕ → List ℕ) (limit : ℕ) (passes : List (Pass E)) (body : List ℕ)
    → 0 < limit
    → limit ≤ max_upload_bytes
    → body_of passes ≡ some body
    → body ≢ []
    → (out : Report) × (analyze_upload digest (pos limit) passes ≡ ok out)
      × IsReport digest limit body out
unfolding analyze_upload
analyze_upload-IsReport digest limit passes body low high h ne =
    let (out, e, v) = analyze_from-Reports digest limit passes [] no_analysis (start limit) h ne in
    (out, ground (arith, e), v)

fails_pass :
    {E : Type 0} (digest : List ℕ → List ℕ) (context : Option E) (chunk : List ℕ) (end : End E)
    → (later : Option (List ℕ)) (again : FileAnalysis → Outcome (UploadError E) Report)
      (r : FileAnalysis)
    → joined context (ended chunk end later) ≡ none
    → (later ≡ none → (e : UploadError E) × (again r ≡ err e))
    → (e : UploadError E) × (in_context digest context (after_pass digest again r end) ≡ err e)
fails_pass digest (some e) chunk end later again r h k = (canceled e, refl)
fails_pass digest none chunk eof later again r h k = cc
fails_pass digest none chunk (failed e) later again r h k = (source_error e, refl)
fails_pass digest none chunk more none again r h k = k refl
fails_pass digest none chunk more (some tail) again r h k = cc

fails_from :
    {E : Type 0} (digest : List ℕ → List ℕ) (limit : ℕ) (passes : List (Pass E)) (r : FileAnalysis)
    → body_of passes ≡ none
    → (e : UploadError E) × (analyze_from digest limit passes r ≡ err e)
unfolding analyze_from body_of
fails_from digest limit [] r h = (unfinished, refl)
fails_from digest limit (p ∷ passes) r h =
    fails_pass digest p.context p.chunk p.end (body_of passes) (analyze_from digest limit passes)
      (absorb limit p.chunk r) h (λ e. fails_from digest limit passes (absorb limit p.chunk r) e)

-- A body that is canceled, fails or does not end is never reported: the result is an error, however
-- much of it was read.
pub analyze_upload-fails :
    {E : Type 0} (digest : List ℕ → List ℕ) (limit : ℕ) (passes : List (Pass E))
    → body_of passes ≡ none
    → (e : UploadError E) × (analyze_upload digest (pos limit) passes ≡ err e)
unfolding analyze_upload
analyze_upload-fails digest limit passes h =
    let (e, f) = fails_from digest limit passes no_analysis h in
    (
      (if ltb_ℤ (pos limit) (pos 1) || ltb_ℤ (pos max_upload_bytes) (pos limit)
          then invalid_limit
          else e),
      ground (arith, f),
    )
