-- ===== src/Rdrand/Laws.antt =====
-- What mixing does to the bytes of the configured source.
use entropy_service.Prelude.{
  ◌<◌, ◌⊎◌, ◌||◌, if◌then◌else◌, ℕ, zero, suc, ◌≤◌, ◌≡◌, refl, true, false, Bool, Option, none,
  some, List, [], ◌∷◌, arith, length, drop, length-drop,
}
use entropy_service.Prelude.Outcome.{Outcome, ok, err}
use entropy_service.Rdrand.Mixer.{CpuError, Mixed, mix_rest, mix, reported, read_mixed}
use entropy_service.Rdrand.Key.{
  key_of_words, xor_key, words_for, bytes_of_word-eq, xor_word-xor_key, length-xor_key,
}

abbrev pub is_some : Option CpuError → Bool
is_some none = false
is_some (some e) = true

reported-cases :
    {S : Type 0} (next : S → S × Outcome CpuError ℕ) (failure : Option CpuError) (warned : Bool)
    → ((reported next failure warned).1 ≡ (if warned then none else failure))
      × ((reported next failure warned).0 ≡ (warned || is_some failure))
reported-cases next none true = (refl, refl)
reported-cases next none false = (refl, refl)
reported-cases next (some e) true = (refl, refl)
reported-cases next (some e) false = (refl, refl)

-- What is drawn: the state after it, the words, and the failure that ended it, if one did.
pub record Drawn (S : Type 0) : Type 0 where
  pub state : S
  pub words : List ℕ
  pub failure : Option CpuError

module _ {S : Type 0} (next : S → S × Outcome CpuError ℕ) where
  abbrev draw_rest : (S → Drawn S) → S × Outcome CpuError ℕ → Drawn S
  draw_rest again (s, err e) = record { state = s; words = []; failure = some e }
  draw_rest again (s, ok value) = let rest = again s in record rest { words = value ∷ rest.words }

  -- At most n words, up to the first failure.
  pub draw : ℕ → S → Drawn S
  draw zero s = record { state = s; words = []; failure = none }
  draw (suc n) s = draw_rest (draw n) (next s)

  -- A failure ended the drawing before its last word, or every word came.
  abbrev pub Ended : ℕ → Drawn S → Type 0
  Ended n d =
      ((e : CpuError) × (d.failure ≡ some e) × (length d.words < n))
      ⊎ ((d.failure ≡ none) × (length d.words ≡ n))

  -- What is left of the bytes when the words of a draw are laid over them.
  abbrev pub laid : List ℕ → Drawn S → Mixed S
  laid bytes d = record {
    state = d.state;
    bytes = xor_key bytes (key_of_words d.words);
    failure = d.failure;
  }

  mix_rest-laid :
      (again : S → List ℕ → Mixed S) (n : ℕ) (bytes : List ℕ) (r : S × Outcome CpuError ℕ)
      → ((s : S) → again s (drop 8 bytes) ≡ laid (drop 8 bytes) (draw n s))
      → mix_rest next again bytes r ≡ laid bytes (draw_rest (draw n) r)
  unfolding key_of_words xor_key
  mix_rest-laid again n bytes (s, err e) h = refl
  mix_rest-laid again n bytes (s, ok value) h =
      rw
        (
          h s,
          bytes_of_word-eq value,
          xor_word-xor_key 8 value bytes (key_of_words (draw n s).words),
        )
        refl

  -- With at least as many rounds as there are bytes, the loop draws a word for each eight bytes, up
  -- to the first failure, which it reports, and XORs the bytes of those words, the lowest first, one by
  -- one with the source's. The bytes after them are the source's own.
  pub mix-draws :
      (fuel : ℕ) (s : S) (bytes : List ℕ)
      → length bytes ≤ fuel
      → mix next fuel s bytes ≡ laid bytes (draw (words_for bytes) s)
  unfolding mix draw key_of_words xor_key
  mix-draws fuel s [] h = refl
  mix-draws zero s (b ∷ bytes) h = absurd (omega (arith, h))
  mix-draws (suc fuel) s (b ∷ bytes) h =
      let more : words_for (b ∷ bytes) ≡ suc (words_for (drop 8 (b ∷ bytes))) =
        omega (arith, length-drop 8 (b ∷ bytes)) in
      rw more (
        mix_rest-laid (mix next fuel) (words_for (drop 8 (b ∷ bytes))) (b ∷ bytes) (next s) (λ s'.
          mix-draws fuel s' (drop 8 (b ∷ bytes)) (omega (arith, h, length-drop 8 (b ∷ bytes)))))

  -- A read through the mixer draws a word for each eight bytes that the source gave, up to the first
  -- failure, and XORs the bytes of those words, the lowest first, one by one with the source's; the
  -- bytes after them are the source's own. It warns of a failure, once: unless it has warned before.
  pub read_mixed-draws :
      (s : S) (warned : Bool) (got : List ℕ)
      → let (m, warned', report) = read_mixed next s warned got in
        let d = draw (words_for got) s in
        (m.state ≡ d.state)
        × (m.bytes ≡ xor_key got (key_of_words d.words))
        × (m.failure ≡ d.failure)
        × (report ≡ (if warned then none else d.failure))
        × (warned' ≡ (warned || is_some d.failure))
  unfolding read_mixed
  read_mixed-draws s warned got =
      let warning = reported-cases next (draw (words_for got) s).failure warned in
      rw (mix-draws (length got) s got (omega arith)) (refl, refl, refl, warning.0, warning.1)

  pub length-mix :
      (s : S) (bytes : List ℕ) → length (mix next (length bytes) s bytes).bytes ≡ length bytes
  length-mix s bytes =
      rw (mix-draws (length bytes) s bytes (omega arith))
        (length-xor_key bytes (key_of_words (draw (words_for bytes) s).words))

  abbrev listed : Option CpuError → List CpuError → List CpuError
  listed none es = es
  listed (some e) es = e ∷ es

  -- A run of reads: what each source read gave, with the failures that were reported.
  pub reports : S → Bool → List (List ℕ) → List CpuError
  unfolding read_mixed
  reports s warned [] = []
  reports s warned (got ∷ gots) =
      let (m, warned', report) = read_mixed next s warned got in
      listed report (reports m.state warned' gots)

  reports_when_warned : (gots : List (List ℕ)) (s : S) → reports s true gots ≡ []
  unfolding reports
  reports_when_warned [] s = refl
  reports_when_warned (got ∷ gots) s =
      ground (arith, reports_when_warned gots (mix next (length got) s got).state)

  -- However many reads there are, a hardware failure is reported once at most.
  pub reports_once : (gots : List (List ℕ)) (s : S) → length (reports s false gots) ≤ 1
  unfolding reports
  reports_once [] s = omega arith
  reports_once (got ∷ gots) s = ground (
    arith,
    reports_when_warned gots (mix next (length got) s got).state,
    reports_once gots (mix next (length got) s got).state,
  )
