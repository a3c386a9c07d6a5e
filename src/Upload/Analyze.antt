-- ===== src/Upload/Analyze.antt =====
-- `analyzeUpload`. The body is the list of its `Read` results, each with what the context says
-- before it. SHA-256 is a parameter. The entropy estimate is floating point and is left out.
use entropy_service.Prelude.{
  ℕ, ◌+◌, ◌-◌, ◌*◌, ◌/◌, ◌%◌, ◌||◌, Option, none, some, List, [], ◌∷◌, ◌++◌, if◌then◌else◌, ◌==◌,
  length, take, min,
}
use entropy_service.Prelude.Int.{ℤ, pos, ltb_ℤ, pos_part}
use entropy_service.Prelude.Outcome.{Outcome, ok, err}

abbrev pub max_upload_bytes : ℕ
max_upload_bytes = 33554432

abbrev pub upload_preview_bytes : ℕ
upload_preview_bytes = 2048

abbrev pub upload_working_memory : ℕ
upload_working_memory = 262144

-- `fileAnalysis`, less the entropy; the digest is the parameter's. `histogram` gives the count of
-- each byte value, and `written` the bytes that the digest has been given.
pub record FileAnalysis : Type 0 where
  pub total_bytes : ℕ
  pub analyzed_bytes : ℕ
  pub histogram : ℕ → ℕ
  pub ones : ℕ
  pub preview : List ℕ
  pub written : List ℕ

abbrev pub no_analysis : FileAnalysis
no_analysis = record {
  total_bytes = 0;
  analyzed_bytes = 0;
  histogram = λ v. 0;
  ones = 0;
  preview = [];
  written = [];
}

-- `bits.OnesCount8`.
unfoldable pub ones_count8 : ℕ → ℕ
ones_count8 v =
    v % 2 + v / 2 % 2 + v / 4 % 2 + v / 8 % 2 + v / 16 % 2 + v / 32 % 2 + v / 64 % 2 + v / 128 % 2

-- The loop over the analyzed part of a chunk.
unfoldable pub tally : List ℕ → FileAnalysis → FileAnalysis
unfolding ones_count8
tally [] r = r
tally (v ∷ chunk) r = tally chunk (record r {
  histogram = λ w. if w == v then r.histogram w + 1 else r.histogram w;
  ones = r.ones + ones_count8 v;
})

-- What `n > 0` bytes do: the total and the digest take all of them, the statistics the rest of the
-- limit, and the preview the rest of its own. Both differences are of larger and smaller.
unfoldable pub absorb : ℕ → List ℕ → FileAnalysis → FileAnalysis
unfolding tally
absorb limit chunk r =
    let part = take (min (length chunk) (limit - r.analyzed_bytes)) chunk in
    let counted = tally part r in
    record counted {
      total_bytes = r.total_bytes + length chunk;
      written = r.written ++ chunk;
      analyzed_bytes = r.analyzed_bytes + length part;
      preview =
          r.preview ++ take (min (length part) (upload_preview_bytes - length r.preview)) part;
    }

pub data UploadError (E : Type 0) : Type 0 where
  invalid_limit empty_upload unfinished : UploadError E
  canceled source_error : E → UploadError E

-- One pass of the loop: the context's error before it, if any, and what `Read` gives: some bytes,
-- and no error, `io.EOF` or another error.
pub data End (E : Type 0) : Type 0 where
  more eof : End E
  failed : E → End E

pub record Pass (E : Type 0) : Type 0 where
  pub context : Option E
  pub chunk : List ℕ
  pub end : End E

-- What the caller gets, with the digest and the zero bits filled in.
pub record Report : Type 0 where
  pub analysis : FileAnalysis
  pub zeros : ℕ
  pub sha256 : List ℕ

module _ {E : Type 0} (digest : List ℕ → List ℕ) where
  abbrev pub report : FileAnalysis → Outcome (UploadError E) Report
  report r =
      if r.total_bytes == 0
      then err empty_upload
      else ok (record {
        analysis = r;
        zeros = r.analyzed_bytes * 8 - r.ones;
        sha256 = digest r.written;
      })

  abbrev pub after_pass :
      (FileAnalysis → Outcome (UploadError E) Report)
      → FileAnalysis
      → End E
      → Outcome (UploadError E) Report
  after_pass again r more = again r
  after_pass again r eof = report r
  after_pass again r (failed e) = err (source_error e)

  abbrev pub in_context : Option E → Outcome (UploadError E) Report → Outcome (UploadError E) Report
  in_context (some e) next = err (canceled e)
  in_context none next = next

  -- The loop. A body whose passes end without `io.EOF` or an error is `unfinished`.
  unfoldable pub analyze_from : ℕ → List (Pass E) → FileAnalysis → Outcome (UploadError E) Report
  unfolding absorb
  analyze_from limit [] r = err unfinished
  analyze_from limit (p ∷ passes) r =
      in_context p.context (after_pass (analyze_from limit passes) (absorb limit p.chunk r) p.end)

  -- `analyzeUpload`.
  unfoldable pub analyze_upload : ℤ → List (Pass E) → Outcome (UploadError E) Report
  unfolding analyze_from
  analyze_upload limit passes =
      if ltb_ℤ limit (pos 1) || ltb_ℤ (pos max_upload_bytes) limit
      then err invalid_limit
      else analyze_from (pos_part limit) passes no_analysis
