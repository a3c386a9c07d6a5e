-- ===== src/StatusWriter/Laws.antt =====
-- The remembered status is the one that the client got.
use entropy_service.Prelude.{
  ℕ, ◌≤◌, ◌≡◌, ◌≢◌, refl, sym, ◌∙◌, ◌⊎◌, inl, append-nil, List, [], ◌∷◌, ◌++◌, arith, if◌then◌else◌,
  ltb, ◌==◌,
}
use entropy_service.StatusWriter.Writer.{
  Use, write_header, write, flush, hijack, read_from, Passed, header, body, flushed, hijacked,
  copied, Writer, new_writer, is_informational, use_writer, use_all,
}

-- The final headers that were passed on: those that are not informational.
pub final_headers : List Passed → List ℕ
final_headers [] = []
final_headers (header code ∷ rest) =
    let later = final_headers rest in if is_informational code then later else code ∷ later
final_headers (body bytes ∷ rest) = final_headers rest
final_headers (flushed succeeds ∷ rest) = final_headers rest
final_headers (hijacked succeeds ∷ rest) = final_headers rest
final_headers (copied moved ∷ rest) = final_headers rest

final_headers-append :
    (xs ys : List Passed) → final_headers (xs ++ ys) ≡ final_headers xs ++ final_headers ys
unfolding final_headers
final_headers-append [] ys = refl
final_headers-append (header code ∷ xs) ys = ground (arith, final_headers-append xs ys)
final_headers-append (body bytes ∷ xs) ys = final_headers-append xs ys
final_headers-append (flushed succeeds ∷ xs) ys = final_headers-append xs ys
final_headers-append (hijacked succeeds ∷ xs) ys = final_headers-append xs ys
final_headers-append (copied moved ∷ xs) ys = final_headers-append xs ys

-- The status that one call commits the response to, 0 for none: a final header its code; the first
-- bytes that are written or copied, and a flush, 200, which net/http then sends by itself; and a hijack
-- the switch of protocols.
abbrev pub commits : Passed → ℕ
commits (header code) = if is_informational code then 0 else code
commits (body bytes) = 200
commits (flushed succeeds) = if succeeds then 200 else 0
commits (hijacked succeeds) = if succeeds then 101 else 0
commits (copied moved) = if ltb 0 moved then 200 else 0

-- The status that the client gets: the first that is committed.
pub client_status : List Passed → ℕ
client_status [] = 0
client_status (p ∷ rest) =
    let later = client_status rest in if commits p == 0 then later else commits p

client_status-append :
    (xs : List Passed) (p : Passed)
    → client_status (xs ++ (p ∷ []))
      ≡ (if client_status xs == 0 then commits p else client_status xs)
unfolding client_status
client_status-append [] p = ground arith
client_status-append (x ∷ xs) p = ground (arith, client_status-append xs p)

-- No final header was passed on, or exactly one, the one that is remembered.
abbrev pub Once : Writer → Type 0
Once w = (final_headers w.passed ≡ []) ⊎ ((final_headers w.passed ≡ w.status ∷ []) × (w.status ≢ 0))

-- The remembered status is the client's; and either no final header was passed on, or exactly one,
-- and its code is that status.
abbrev pub IsHonest : Writer → Type 0
IsHonest w = (w.status ≡ client_status w.passed) × Once w

-- A code that the wrapped writer accepts: net/http panics below 100.
abbrev pub IsCode : Use → Type 0
IsCode (write_header code) = 100 ≤ code
IsCode (write bytes) = Unit {0}
IsCode (flush succeeds) = Unit {0}
IsCode (hijack succeeds) = Unit {0}
IsCode (read_from moved) = Unit {0}

abbrev pub EachCode : List Use → Type 0
EachCode [] = Unit {0}
EachCode (u ∷ uses) = IsCode u × EachCode uses

use_writer-status :
    (u : Use) (w : Writer)
    → w.status ≡ client_status w.passed
    → (use_writer u w).status ≡ client_status (use_writer u w).passed
unfolding use_writer
use_writer-status (write_header code) w h =
    ground (arith, h, client_status-append w.passed (header code))
use_writer-status (write bytes) w h = ground (arith, h, client_status-append w.passed (body bytes))
use_writer-status (flush succeeds) w h =
    ground (arith, h, client_status-append w.passed (flushed succeeds))
use_writer-status (hijack succeeds) w h =
    ground (arith, h, client_status-append w.passed (hijacked succeeds))
use_writer-status (read_from moved) w h =
    ground (arith, h, client_status-append w.passed (copied moved))

use_writer-headers : (u : Use) (w : Writer) → IsCode u → Once w → Once (use_writer u w)
unfolding use_writer final_headers
use_writer-headers (write_header code) w c h =
    ground (arith, final_headers-append w.passed (header code ∷ []))
use_writer-headers (write bytes) w c h =
    ground
      (arith, final_headers-append w.passed (body bytes ∷ []), append-nil (final_headers w.passed))
use_writer-headers (flush succeeds) w c h = ground (
  arith,
  final_headers-append w.passed (flushed succeeds ∷ []),
  append-nil (final_headers w.passed),
)
use_writer-headers (hijack succeeds) w c h = ground (
  arith,
  final_headers-append w.passed (hijacked succeeds ∷ []),
  append-nil (final_headers w.passed),
)
use_writer-headers (read_from moved) w c h =
    ground (
      arith,
      final_headers-append w.passed (copied moved ∷ []),
      append-nil (final_headers w.passed),
    )

use_all-IsHonest :
    (uses : List Use) (w : Writer) → EachCode uses → IsHonest w → IsHonest (use_all uses w)
unfolding use_all
use_all-IsHonest [] w c h = h
use_all-IsHonest (u ∷ uses) w c h =
    use_all-IsHonest uses (use_writer u w) c.1
      (use_writer-status u w h.0, use_writer-headers u w c.0 h.1)

-- However a handler uses its writer, with codes that net/http accepts, the status that is remembered
-- for the log is the one that the client gets, also where a first write, flush or copy makes net/http
-- send 200 or the connection is hijacked; and at most one final header is passed on, with that status.
pub use_all-new_writer-IsHonest :
    (uses : List Use) → EachCode uses → IsHonest (use_all uses new_writer)
unfolding final_headers client_status
use_all-new_writer-IsHonest uses c = use_all-IsHonest uses new_writer c (refl, inl refl)

status-use_writer : (u : Use) (w : Writer) → w.status ≢ 0 → (use_writer u w).status ≡ w.status
unfolding use_writer
status-use_writer u w h = ground arith

-- A status that is set never changes.
pub status-use_all :
    (uses : List Use) (w : Writer) → w.status ≢ 0 → (use_all uses w).status ≡ w.status
unfolding use_all
status-use_all [] w h = refl
status-use_all (u ∷ uses) w h =
    let kept = status-use_writer u w h in
    status-use_all uses (use_writer u w) (λ e. h (sym kept ∙ e)) ∙ kept
