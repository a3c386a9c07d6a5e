-- ===== src/Words/Frame.antt =====
-- `newWordFrame`.
use entropy_service.Prelude.{
  ℕ, zero, suc, ◌||◌, ◌==◌, Option, none, some, String, List, [], ◌∷◌, length, get_elem?,
  if◌then◌else◌,
}
use entropy_service.Prelude.Int.{ℤ, pos, ltb_ℤ, pos_part}
use entropy_service.Prelude.Outcome.{Outcome, ok, err}
use entropy_service.Drbg.Algorithm.{Error}

-- `EntropyFrame`.
pub record EntropyFrame : Type 0 where
  pub words : String
  pub hash : String

-- `crash` is the panic of an index out of range.
pub data WordError : Type 0 where
  invalid_word_count crash : WordError
  select_word : Error → WordError

-- What is used of the packages. `rand_int` draws a number below a limit from any reader.
pub record WordPackages : Type 1 where
  pub dictionary : List String
  pub rand_int : {S : Type 0} → (ℕ → S → S × Outcome Error (List ℕ)) → ℕ → S → S × Outcome Error ℕ
  pub join : List String → String → String
  pub sha256_hex : String → String

module _ (w : WordPackages) {S : Type 0} (read : ℕ → S → S × Outcome Error (List ℕ)) where
  abbrev pub and_word :
      String → S × Outcome WordError (List String) → S × Outcome WordError (List String)
  and_word word (s, err e) = (s, err e)
  and_word word (s, ok words) = (s, ok (word ∷ words))

  -- `words[i] = dicewareWords[n]`, and the rounds behind it.
  abbrev pub place_word :
      (S → S × Outcome WordError (List String))
      → S
      → Option String
      → S × Outcome WordError (List String)
  place_word again s none = (s, err crash)
  place_word again s (some word) = and_word word (again s)

  abbrev pub after_draw :
      (S → S × Outcome WordError (List String))
      → S × Outcome Error ℕ
      → S × Outcome WordError (List String)
  after_draw again (s, err e) = (s, err (select_word e))
  after_draw again (s, ok n) = place_word again s (get_elem? w.dictionary n)

  -- The loop over the words.
  unfoldable pub draw_words : ℕ → S → S × Outcome WordError (List String)
  draw_words zero s = (s, ok [])
  draw_words (suc left) s = after_draw (draw_words left) (w.rand_int read (length w.dictionary) s)

  abbrev pub frame_of : S × Outcome WordError (List String) → S × Outcome WordError EntropyFrame
  frame_of (s, err e) = (s, err e)
  frame_of (s, ok words) =
      let phrase = w.join words " " in
      (s, ok (record { words = phrase; hash = w.sha256_hex phrase }))

  unfoldable pub new_word_frame : ℤ → S → S × Outcome WordError EntropyFrame
  unfolding draw_words
  new_word_frame count s =
      if ltb_ℤ count (pos 1) || (length w.dictionary == 0)
      then (s, err invalid_word_count)
      else frame_of (draw_words (pos_part count) s)
