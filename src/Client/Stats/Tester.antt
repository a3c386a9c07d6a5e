-- ===== src/Client/Stats/Tester.antt =====
-- `StreamTester` and `RunFromReader`. The three sums are float64 in the source; they hold whole
-- numbers, rounded as float64 rounds them. The counts are uint64, which wrap around. The derived
-- figures of `Result` (entropy, chi-square and the p-values) are floating point and enter as a
-- parameter.
use entropy_service.Prelude.{
  ℕ, ◌*◌, Option, none, some, List, [], ◌∷◌, if◌then◌else◌, leb, ◌==◌, length,
}
use entropy_service.Prelude.Word.{add64}
use entropy_service.Prelude.Float.{add_float}
use entropy_service.Prelude.Outcome.{Outcome, ok, err}
use entropy_service.Upload.Analyze.{ones_count8, End, more, eof, failed, Pass}

-- `StreamTester`; `prev` with `havePrev` is an option.
pub record Tester : Type 0 where
  pub total : ℕ
  pub hist : ℕ → ℕ
  pub bit_ones : ℕ
  pub sum : ℕ
  pub sum_sq : ℕ
  pub sum_prod : ℕ
  pub prev : Option ℕ
  pub pairs : ℕ

-- `NewStreamTester`.
abbrev pub new_tester : Tester
new_tester = record {
  total = 0;
  hist = λ v. 0;
  bit_ones = 0;
  sum = 0;
  sum_sq = 0;
  sum_prod = 0;
  prev = none;
  pairs = 0;
}

-- The products are added only behind a first byte.
abbrev pub with_product : Option ℕ → ℕ → ℕ → ℕ
with_product none x sum = sum
with_product (some p) x sum = add_float sum (p * x)

abbrev pub with_pair : Option ℕ → ℕ → ℕ
with_pair none pairs = pairs
with_pair (some p) pairs = add64 pairs 1

-- One round of the loop of `Add`.
unfoldable pub add_byte : ℕ → Tester → Tester
unfolding ones_count8 add_float
add_byte v t = record t {
  hist = λ w. if w == v then add64 (t.hist w) 1 else t.hist w;
  bit_ones = add64 t.bit_ones (ones_count8 v);
  sum = add_float t.sum v;
  sum_sq = add_float t.sum_sq (v * v);
  sum_prod = with_product t.prev v t.sum_prod;
  pairs = with_pair t.prev t.pairs;
  prev = some v;
}

unfoldable pub add_bytes : List ℕ → Tester → Tester
unfolding add_byte
add_bytes [] t = t
add_bytes (v ∷ chunk) t = add_bytes chunk (add_byte v t)

-- `Add`: nothing for no bytes; else the loop, then the total.
unfoldable pub add : List ℕ → Tester → Tester
unfolding add_bytes
add [] t = t
add (v ∷ chunk) t =
    let t' = add_bytes (v ∷ chunk) t in record t' { total = add64 t'.total (length (v ∷ chunk)) }

-- What `RunFromReader` does for its caller: the testers that the callback saw, and how it ended.
pub record Outcomes (E : Type 0) : Type 0 where
  pub seen : List Tester
  pub result : Outcome E (Unit {0})

module _ {E : Type 0} (unfinished : E) (interval : ℕ) where
  abbrev pub see : Tester → Outcomes E → Outcomes E
  see t rest = record rest { seen = t ∷ rest.seen }

  abbrev pub ended : Tester → Outcomes E → End E → Outcomes E
  ended t again more = again
  ended t again eof = record { seen = t ∷ []; result = ok tt }
  ended t again (failed e) = record { seen = []; result = err e }

  -- One read of n > 0 bytes or none, the callback when the total has reached the mark, and the end.
  abbrev pub after_chunk : (ℕ → Tester → Outcomes E) → ℕ → Tester → List ℕ → End E → Outcomes E
  after_chunk again mark t [] end = ended t (again mark t) end
  after_chunk again mark t (b ∷ chunk) end =
      if leb mark t.total
      then see t (ended t (again (add64 mark interval) t) end)
      else ended t (again mark t) end

  abbrev pub in_context : Option E → Outcomes E → Outcomes E
  in_context (some e) next = record { seen = []; result = err e }
  in_context none next = next

  -- The loop of `RunFromReader`, over the reads that it makes; `unfinished` stands for a reader
  -- that gives no more and never ends.
  unfoldable pub run_reads : List (Pass E) → ℕ → Tester → Outcomes E
  unfolding add
  run_reads [] mark t = record { seen = []; result = err unfinished }
  run_reads (p ∷ passes) mark t =
      in_context p.context (after_chunk (run_reads passes) mark (add p.chunk t) p.chunk p.end)

  -- `RunFromReader`, with the size of its buffer.
  unfoldable pub run_from_reader : ℕ → List (Pass E) → Outcomes E
  unfolding run_reads
  run_from_reader chunk_size passes =
      run_reads passes (if interval == 0 then chunk_size else interval) new_tester
