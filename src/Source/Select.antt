-- ===== src/Source/Select.antt =====
-- cmd/entropy-server/entropy_source.go: `openCharacterEntropySource` and `selectEntropySource`,
-- which `openEntropySource` joins.
use text.Mathlib.Text.{◌==◌}
use entropy_service.Prelude.{
  ◌≡◌, refl, ap, sym, ◌⊎◌, inl, inr, Bool, true, false, not, Option, none, some, String,
  if◌then◌else◌, arith, Bool-cases,
}
use entropy_service.Prelude.Outcome.{Outcome, ok, err}

abbrev pub default_csprng : String
default_csprng = "/dev/urandom"

abbrev pub source_go_crypto_rand : String
source_go_crypto_rand = "crypto/rand"

-- What the two functions of package os are used for: opening a path, and whether an opened file is
-- a character device, which can fail.
pub record Os (File OsError : Type 0) : Type 0 where
  pub open_file : String → Outcome OsError File
  pub is_char_device : File → Outcome OsError Bool

pub data SourceError (OsError : Type 0) : Type 0 where
  cannot_open cannot_inspect : OsError → SourceError OsError
  not_character_device : SourceError OsError

module _ {File OsError : Type 0} (os : Os File OsError) where
  -- The file that is closed on the way, if one is, and the result.
  abbrev pub inspected :
      File → Outcome OsError Bool → Option File × Outcome (SourceError OsError) File
  inspected f (err e) = (some f, err (cannot_inspect e))
  inspected f (ok false) = (some f, err not_character_device)
  inspected f (ok true) = (none, ok f)

  abbrev pub opened : Outcome OsError File → Option File × Outcome (SourceError OsError) File
  opened (err e) = (none, err (cannot_open e))
  opened (ok f) = inspected f (os.is_char_device f)

  -- `openCharacterEntropySource`.
  unfoldable pub open_character_source : String → Option File × Outcome (SourceError OsError) File
  open_character_source path = opened (os.open_file path)

  -- Whatever goes wrong after a file is opened, that file is closed; and a file that is returned is
  -- the one that the path opens, is a character device and stays open.
  pub open_character_source-closes :
      (path : String) (f : File)
      → os.open_file path ≡ ok f
      → let (closed, result) = open_character_source path in
        ((closed ≡ some f) × ((e : SourceError OsError) × (result ≡ err e)))
        ⊎ ((closed ≡ none) × (result ≡ ok f) × (os.is_char_device f ≡ ok true))
  unfolding open_character_source
  open_character_source-closes path f e = rw e (inspected_cases (os.is_char_device f))
    where
      inspected_cases :
          (o : Outcome OsError Bool)
          → ((((inspected f o).0 ≡ some f)
                × ((x : SourceError OsError) × ((inspected f o).1 ≡ err x)))
              ⊎ (((inspected f o).0 ≡ none) × ((inspected f o).1 ≡ ok f) × (o ≡ ok true)))
      inspected_cases (err x) = inl (refl, (cannot_inspect x, refl))
      inspected_cases (ok false) = inl (refl, (not_character_device, refl))
      inspected_cases (ok true) = inr (refl, refl, refl)

pub data SelectError (E : Type 0) : Type 0 where
  empty_path : SelectError E
  required : E → SelectError E

-- The reader that is selected: an opened one, or Go's own.
pub data Selected (Reader : Type 0) : Type 0 where
  opened_reader : Reader → Selected Reader
  crypto_rand : Selected Reader

module _ {World Reader E : Type 0} (open_at : World → String → World × Outcome E Reader) where
  abbrev pub Choice : Type 0
  Choice = World × Outcome (SelectError E) (Selected Reader × String)

  -- The second attempt, at the system's device, and the last resort.
  abbrev pub fall_back : World × Outcome E Reader → Choice
  fall_back (w, ok reader) = (w, ok (opened_reader reader, default_csprng))
  fall_back (w, err e) = (w, ok (crypto_rand, source_go_crypto_rand))

  abbrev pub after_open : String → Bool → World × Outcome E Reader → Choice
  after_open path require (w, ok reader) = (w, ok (opened_reader reader, path))
  after_open path true (w, err e) = (w, err (required e))
  after_open path false (w, err e) =
      if not (path == default_csprng)
      then fall_back (open_at w default_csprng)
      else (w, ok (crypto_rand, source_go_crypto_rand))

  -- `selectEntropySource`.
  unfoldable pub select_entropy_source : World → String → Bool → Choice
  select_entropy_source w path require =
      if path == ""
      then if require
        then (w, err empty_path)
        else after_open default_csprng require (open_at w default_csprng)
      else after_open path require (open_at w path)

  -- In strict mode nothing is tried but the named path: the result is the reader that it opens,
  -- under that name, or an error, and the world is that of the one attempt.
  pub select_entropy_source-strict :
      (w : World) (path : String)
      → (path == "") ≡ false
      → select_entropy_source w path true ≡ (
        (open_at w path).0,
        elim (open_at w path).1 [
          | ok reader ↦ ok (opened_reader reader, path)
          | err e ↦ err (required e)
        ],
      )
  unfolding select_entropy_source
  select_entropy_source-strict w path h = ground arith

  -- A selection is truthful: an opened reader is named by the path that gave it in the world of
  -- that attempt, and Go's own source by its own name.
  abbrev pub IsTruthful : World → String → Selected Reader × String → Type 0
  IsTruthful w path (opened_reader reader, name) =
      ((name ≡ path) × ((open_at w path).1 ≡ ok reader))
      ⊎ ((name ≡ default_csprng) × ((w' : World) × ((open_at w' default_csprng).1 ≡ ok reader)))
  IsTruthful w path (crypto_rand, name) = name ≡ source_go_crypto_rand

  abbrev Selects : World → String → Choice → Type 0
  Selects w path choice = (s : Selected Reader × String) × (choice.1 ≡ ok s) × IsTruthful w path s

  fall_back-Selects :
      (w w' : World) (path : String) (r : World × Outcome E Reader)
      → r ≡ open_at w' default_csprng
      → Selects w path (fall_back r)
  fall_back-Selects w w' path (v, ok reader) e = (
    (opened_reader reader, default_csprng),
    refl,
    inr (refl, (w', ap (λ (x : World × Outcome E Reader). x.1) (sym e))),
  )
  fall_back-Selects w w' path (v, err x) e = ((crypto_rand, source_go_crypto_rand), refl, refl)

  after_open-Selects :
      (w : World) (path : String) (r : World × Outcome E Reader)
      → r ≡ open_at w path
      → Selects w path (after_open path false r)
  after_open-Selects w path (v, ok reader) e = (
    (opened_reader reader, path),
    refl,
    inl (refl, ap (λ (x : World × Outcome E Reader). x.1) (sym e)),
  )
  after_open-Selects w path (v, err x) e = elim (Bool-cases (path == default_csprng)) [
    | inl same ↦ rw same ((crypto_rand, source_go_crypto_rand), refl, refl)
    | inr other ↦ rw other (fall_back-Selects w v path (open_at v default_csprng) refl)
  ]

  -- Without strict mode a source is always selected, and its reported name is the truth: the path
  -- that gave the reader, the system's device if that gave it, or Go's own source.
  pub select_entropy_source-total :
      (w : World) (path : String)
      → let wanted = if path == "" then default_csprng else path in
        (s : Selected Reader × String) × ((select_entropy_source w path false).1 ≡ ok s)
        × IsTruthful w wanted s
  unfolding select_entropy_source
  select_entropy_source-total w path = elim (Bool-cases (path == "")) [
    | inl empty ↦ rw empty (after_open-Selects w default_csprng (open_at w default_csprng) refl)
    | inr named ↦ rw named (after_open-Selects w path (open_at w path) refl)
  ]
