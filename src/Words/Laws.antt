-- ===== src/Words/Laws.antt =====
-- What a frame of words holds.
use entropy_service.Prelude.{
  ℕ, zero, suc, ◌==◌, ◌<◌, ◌||◌, ◌≡◌, refl, ap, ◌⊎◌, inl, inr, Bool-cases, Option, none, some,
  String, List, [], ◌∷◌, arith, length, get_elem?,
}
use entropy_service.Prelude.Int.{ℤ, pos, ltb_ℤ, pos_part, ◌≤ℤ◌}
use entropy_service.Prelude.Outcome.{Outcome, ok, err}
use entropy_service.Drbg.Algorithm.{Error}
use entropy_service.Words.Frame.{
  EntropyFrame, WordError, invalid_word_count, select_word, WordPackages, and_word, place_word,
  after_draw, draw_words, frame_of, new_word_frame,
}

-- `rand.Int` documents that its number is below the limit.
abbrev Below : {S : Type 0} → ℕ → S × Outcome Error ℕ → Type 0
Below limit (s, err e) = Unit {0}
Below limit (s, ok n) = n < limit

abbrev pub DrawsBelow : WordPackages → Type 1
DrawsBelow w =
    (S : Type 0) (read : ℕ → S → S × Outcome Error (List ℕ)) (limit : ℕ) (s : S)
    → 0 < limit
    → Below limit (w.rand_int read limit s)

-- Every word is in the dictionary.
abbrev pub AllIn : List String → List String → Type 0
AllIn dictionary [] = Unit {0}
AllIn dictionary (word ∷ words) =
    ((i : ℕ) × (get_elem? dictionary i ≡ some word)) × AllIn dictionary words

in_bounds :
    (dictionary : List String) (i : ℕ) → i < length dictionary → ¬ (get_elem? dictionary i ≡ none)
in_bounds [] i low = omega (arith, low)
in_bounds (word ∷ dictionary) zero low = λ e. cc
in_bounds (word ∷ dictionary) (suc i) low = in_bounds dictionary i (omega (arith, low))

module _ (w : WordPackages) where
  -- A frame of so many words of the dictionary, with the digest of its phrase.
  abbrev pub IsWordFrame : ℕ → EntropyFrame → Type 0
  IsWordFrame count frame =
      (words : List String) × (length words ≡ count)
      × AllIn w.dictionary words
      × (frame.words ≡ w.join words " ")
      × (frame.hash ≡ w.sha256_hex frame.words)

  module _ {S : Type 0} (read : ℕ → S → S × Outcome Error (List ℕ)) (draws : DrawsBelow w) where
    -- So many words of the dictionary, or an error of the source: never a panic.
    abbrev DrawsWords : ℕ → S × Outcome WordError (List String) → Type 0
    DrawsWords count (s, err e) = (cause : Error) × (e ≡ select_word cause)
    DrawsWords count (s, ok words) = (length words ≡ count) × AllIn w.dictionary words

    and_word-DrawsWords :
        (count i : ℕ) (word : String) (r : S × Outcome WordError (List String))
        → get_elem? w.dictionary i ≡ some word
        → DrawsWords count r
        → DrawsWords (suc count) (and_word w read word r)
    and_word-DrawsWords count i word (s, err e) found h = h
    and_word-DrawsWords count i word (s, ok words) found (l, all) = (ap suc l, ((i, found), all))

    place_word-DrawsWords :
        (count i : ℕ) (again : S → S × Outcome WordError (List String)) (s : S) (o : Option String)
        → get_elem? w.dictionary i ≡ o
        → i < length w.dictionary
        → ((s : S) → DrawsWords count (again s))
        → DrawsWords (suc count) (place_word w read again s o)
    place_word-DrawsWords count i again s none found low h =
        absurd (in_bounds w.dictionary i low found)
    place_word-DrawsWords count i again s (some word) found low h =
        and_word-DrawsWords count i word (again s) found (h s)

    after_draw-DrawsWords :
        (count : ℕ) (again : S → S × Outcome WordError (List String)) (r : S × Outcome Error ℕ)
        → Below (length w.dictionary) r
        → ((s : S) → DrawsWords count (again s))
        → DrawsWords (suc count) (after_draw w read again r)
    after_draw-DrawsWords count again (s, err e) low h = (e, refl)
    after_draw-DrawsWords count again (s, ok n) low h =
        place_word-DrawsWords count n again s (get_elem? w.dictionary n) refl low h

    draw_words-DrawsWords :
        (count : ℕ) (s : S) → 0 < length w.dictionary → DrawsWords count (draw_words w read count s)
    unfolding draw_words
    draw_words-DrawsWords zero s h = (refl, tt)
    draw_words-DrawsWords (suc left) s h =
        after_draw-DrawsWords left (draw_words w read left)
          (w.rand_int read (length w.dictionary) s) (draws S read (length w.dictionary) s h)
          (λ s'. draw_words-DrawsWords left s' h)

    -- What `newWordFrame` gives: a frame of the words asked for, an error of the source, or a
    -- refusal that has read nothing.
    abbrev pub Frames : ℤ → S → S × Outcome WordError EntropyFrame → Type 0
    Frames count s (s', ok frame) = (pos 1 ≤ℤ count) × IsWordFrame (pos_part count) frame
    Frames count s (s', err e) =
        ((e ≡ invalid_word_count) × (s' ≡ s)) ⊎ ((cause : Error) × (e ≡ select_word cause))

    frame_of-Frames :
        (count : ℤ) (s : S) (r : S × Outcome WordError (List String))
        → pos 1 ≤ℤ count
        → DrawsWords (pos_part count) r
        → Frames count s (frame_of w read r)
    frame_of-Frames count s (s', err e) low h = inr h
    frame_of-Frames count s (s', ok words) low (l, all) = (low, (words, l, all, refl, refl))

    -- If the numbers that are drawn lie below their limit, a frame of words holds exactly as many
    -- words as were asked for, at least one, each of them in the dictionary, and the digest of the
    -- phrase; otherwise the count or the dictionary is refused before anything is read, or the
    -- source failed. No index is out of range.
    pub new_word_frame-Frames : (count : ℤ) (s : S) → Frames count s (new_word_frame w read count s)
    unfolding new_word_frame
    new_word_frame-Frames count s =
        elim (Bool-cases (ltb_ℤ count (pos 1) || (length w.dictionary == 0))) [
          | inl e ↦ rw e (inl (refl, refl))
          | inr e ↦ rw e (
              frame_of-Frames count s (draw_words w read (pos_part count) s) (ground (arith, e))
                (draw_words-DrawsWords (pos_part count) s (ground (arith, e))))
        ]
