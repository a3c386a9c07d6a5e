-- ===== src/Client/Stats/Laws.antt =====
-- The incremental statistics are those of all the bytes so far, whatever the chunks.
use entropy_service.Prelude.{
  ℕ, ◌^◌, ◌≤◌, append-nil, ◌+◌, ◌-◌, ◌≡◌, refl, ap, ap₂, ◌∙◌, sym, Option, none, some, List, [],
  ◌∷◌, ◌++◌, arith, length, length-append, ◌==◌, if◌then◌else◌, leb, Bool-cases, inl, inr,
}
use mathlib.Core.Path.{◌≡⟨◌⟩◌, ◌∎}
use entropy_service.Prelude.Outcome.{ok}
use entropy_service.Upload.Analyze.{Pass, End, more, eof, failed}
use entropy_service.Upload.Chunks.{count, ones_of}
use entropy_service.Upload.Laws.{body_of, joined, ended as ended_body, some_inj}
use entropy_service.Client.Stats.Tester.{
  Tester, new_tester, add_byte, add_bytes, add, Outcomes, in_context, after_chunk, ended, see,
  run_reads, run_from_reader,
}
use entropy_service.Client.Stats.Sums.{
  AreBytes, sum_of, squares_of, products_after, pairs_after-none, add_bytes-Extends,
  new_tester-Fits,
}
use entropy_service.Prelude.Word.{add64}

add_bytes-append :
    (xs ys : List ℕ) (t : Tester) → add_bytes (xs ++ ys) t ≡ add_bytes ys (add_bytes xs t)
unfolding add_bytes
add_bytes-append [] ys t = refl
add_bytes-append (x ∷ xs) ys t = add_bytes-append xs ys (add_byte x t)

abbrev with_total : Tester → ℕ → Tester
with_total t n = record t { total = n }

add_bytes-with_total :
    (bytes : List ℕ) (t : Tester) (n : ℕ)
    → add_bytes bytes (with_total t n) ≡ with_total (add_bytes bytes t) n
unfolding add_bytes
add_bytes-with_total [] t n = refl
add_bytes-with_total (v ∷ bytes) t n = add_bytes-with_total bytes (add_byte v t) n

total-add_bytes : (bytes : List ℕ) (t : Tester) → (add_bytes bytes t).total ≡ t.total
unfolding add_bytes
total-add_bytes [] t = refl
total-add_bytes (v ∷ bytes) t = total-add_bytes bytes (add_byte v t)

add-eq :
    (v : ℕ) (bytes : List ℕ) (t : Tester)
    → add (v ∷ bytes) t ≡ with_total (add_bytes (v ∷ bytes) t) (add64 t.total (length (v ∷ bytes)))
unfolding add
add-eq v bytes t =
    ap (λ (n : ℕ). with_total (add_bytes (v ∷ bytes) t) (add64 n (length (v ∷ bytes))))
      (total-add_bytes (v ∷ bytes) t)

append-cons : (x : ℕ) (xs ys : List ℕ) → length ((x ∷ xs) ++ ys) ≡ length (x ∷ xs) + length ys
append-cons x xs ys = length-append (x ∷ xs) ys

add-append_cons :
    (x y : ℕ) (xs ys : List ℕ) (t : Tester)
    → add (y ∷ ys) (add (x ∷ xs) t) ≡ add ((x ∷ xs) ++ (y ∷ ys)) t
add-append_cons x y xs ys t =
    let n = add64 t.total (length (x ∷ xs)) in
    add (y ∷ ys) (add (x ∷ xs) t)
    ≡⟨ ap (add (y ∷ ys)) (add-eq x xs t) ⟩ add (y ∷ ys) (with_total (add_bytes (x ∷ xs) t) n)
    ≡⟨ add-eq y ys (with_total (add_bytes (x ∷ xs) t) n) ⟩
      with_total (add_bytes (y ∷ ys) (with_total (add_bytes (x ∷ xs) t) n))
        (add64 n (length (y ∷ ys)))
    ≡⟨ ap (λ (u : Tester). with_total u (add64 n (length (y ∷ ys))))
        (add_bytes-with_total (y ∷ ys) (add_bytes (x ∷ xs) t) n) ⟩
      with_total (add_bytes (y ∷ ys) (add_bytes (x ∷ xs) t)) (add64 n (length (y ∷ ys)))
    ≡⟨ ap₂ with_total (sym (add_bytes-append (x ∷ xs) (y ∷ ys) t))
        (omega (arith, append-cons x xs (y ∷ ys))) ⟩
      with_total (add_bytes ((x ∷ xs) ++ (y ∷ ys)) t)
        (add64 t.total (length ((x ∷ xs) ++ (y ∷ ys))))
    ≡⟨ sym (add-eq x (xs ++ (y ∷ ys)) t) ⟩ add ((x ∷ xs) ++ (y ∷ ys)) t ∎

-- Adding two chunks one after the other is adding them joined.
pub add-append : (xs ys : List ℕ) (t : Tester) → add ys (add xs t) ≡ add (xs ++ ys) t
unfolding add
add-append [] ys t = refl
add-append (x ∷ xs) [] t = rw append-nil refl
add-append (x ∷ xs) (y ∷ ys) t = add-append_cons x y xs ys t

-- The statistics of a whole stream, as one would define them.
pub record Summarizes (bytes : List ℕ) (t : Tester) : Type 0 where
  pub total : t.total ≡ length bytes
  pub hist : (w : ℕ) → t.hist w ≡ count w bytes
  pub bit_ones : t.bit_ones ≡ ones_of bytes
  pub sum : t.sum ≡ sum_of bytes
  pub sum_sq : t.sum_sq ≡ squares_of bytes
  pub sum_prod : t.sum_prod ≡ products_after none bytes
  pub pairs : t.pairs ≡ length bytes - 1

add_bytes-Summarizes :
    (bytes : List ℕ)
    → AreBytes bytes
    → length bytes ≤ 2 ^ 37
    → Summarizes bytes (with_total (add_bytes bytes new_tester) (length bytes))
add_bytes-Summarizes bytes h small =
    let e = add_bytes-Extends bytes new_tester (new_tester-Fits bytes h small) in
    record {
      total = refl;
      hist = λ w. omega (arith, e.hist w);
      bit_ones = omega (arith, e.bit_ones);
      sum = omega (arith, e.sum);
      sum_sq = omega (arith, e.sum_sq);
      sum_prod = omega (arith, e.sum_prod);
      pairs = omega (arith, e.pairs, pairs_after-none bytes);
    }

pub add-Summarizes :
    (bytes : List ℕ)
    → AreBytes bytes
    → length bytes ≤ 2 ^ 37
    → Summarizes bytes (add bytes new_tester)
unfolding add add_bytes
add-Summarizes [] h small = add_bytes-Summarizes [] h small
add-Summarizes (v ∷ bytes) h small =
    let total : add64 0 (length (v ∷ bytes)) ≡ length (v ∷ bytes) = omega (arith, small) in
    rw (add-eq v bytes new_tester, total) (add_bytes-Summarizes (v ∷ bytes) h small)

abbrev pub last_or : Tester → List Tester → Tester
last_or t [] = t
last_or t (u ∷ seen) = last_or u seen

module _ {E : Type 0} (unfinished : E) (interval : ℕ) where
  after_chunk_cases :
      (P : Outcomes E → Type 0) (again : ℕ → Tester → Outcomes E) (mark : ℕ) (u : Tester)
      → (chunk : List ℕ) (end : End E) → ((m : ℕ) → P (ended unfinished interval u (again m u) end))
      → ((o : Outcomes E) → P o → P (see unfinished interval u o))
      → P (after_chunk unfinished interval again mark u chunk end)
  after_chunk_cases P again mark u [] end h k = h mark
  after_chunk_cases P again mark u (b ∷ chunk) end h k = elim (Bool-cases (leb mark u.total)) [
    | inl reached ↦ rw reached (k _ (h (add64 mark interval)))
    | inr below ↦ rw below (h mark)
  ]

  -- What is left to show of the passes behind one: the last callback sees everything.
  abbrev Completes : List ℕ → Tester → Outcomes E → Type 0
  Completes body t out = (out.result ≡ ok tt) × ((d : Tester) → last_or d out.seen ≡ add body t)

  pass-Completes :
      (context : Option E) (chunk : List ℕ) (end : End E) (later : Option (List ℕ))
      → (again : ℕ → Tester → Outcomes E) (mark : ℕ) (t : Tester) {body : List ℕ}
      → joined context (ended_body chunk end later) ≡ some body
      → ((m : ℕ) (tail : List ℕ)
          → later ≡ some tail
          → Completes tail (add chunk t) (again m (add chunk t)))
      → Completes body t (
          in_context unfinished interval context
            (after_chunk unfinished interval again mark (add chunk t) chunk end))
  pass-Completes (some e) chunk end later again mark t h k = cc
  pass-Completes none chunk (failed e) later again mark t h k = cc
  pass-Completes none chunk more none again mark t h k = cc
  pass-Completes none chunk eof later again mark t {body} h k =
      after_chunk_cases (Completes body t) again mark (add chunk t) chunk eof
        (λ m. (refl, λ d. ap (λ (b : List ℕ). add b t) (some_inj h))) (λ o c. (c.0, λ d. c.1 _))
  pass-Completes none chunk more (some tail) again mark t {body} h k =
      after_chunk_cases (Completes body t) again mark (add chunk t) chunk more
        (λ m.
          let c = k m tail refl in
          (c.0, λ d. c.1 d ∙ add-append chunk tail t ∙ ap (λ (b : List ℕ). add b t) (some_inj h)))
        (λ o c. (c.0, λ d. c.1 _))

  run_reads-Completes :
      (passes : List (Pass E)) (mark : ℕ) (t : Tester) {body : List ℕ}
      → body_of passes ≡ some body
      → Completes body t (run_reads unfinished interval passes mark t)
  unfolding run_reads body_of
  run_reads-Completes [] mark t h = cc
  run_reads-Completes (p ∷ passes) mark t h =
      pass-Completes p.context p.chunk p.end (body_of passes) (run_reads unfinished interval passes)
        mark t h (λ m tail e. run_reads-Completes passes m (add p.chunk t) e)

  -- A stream of at most 2 ^ 37 bytes that is read to its end without cancellation ends without an
  -- error, and the last callback sees the statistics of all its bytes: totals, histogram, one bits and
  -- lag-1 sums as one would define them over the whole, with no count that wrapped around and no sum
  -- that was rounded, whatever the chunks and the interval between callbacks.
  pub run_from_reader-Summarizes :
      (chunk_size : ℕ) (passes : List (Pass E)) (body : List ℕ)
      → AreBytes body
      → length body ≤ 2 ^ 37
      → body_of passes ≡ some body
      → let out = run_from_reader unfinished interval chunk_size passes in
        (out.result ≡ ok tt) × Summarizes body (last_or new_tester out.seen)
  unfolding run_from_reader
  run_from_reader-Summarizes chunk_size passes body bytes small h =
      let c =
        run_reads-Completes passes (if interval == 0 then chunk_size else interval) new_tester h in
      (c.0, rw (c.1 new_tester) (add-Summarizes body bytes small))
