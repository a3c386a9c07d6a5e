-- ===== src/Prelude/Outcome.antt =====
-- What a Go function that returns `(value, error)` gives: one of the two.
use entropy_service.Prelude.{◌≡◌, refl}

pub data Outcome {ℓ κ} (E : Type κ) (A : Type ℓ) : Type (ℓ ⊔ κ) where
  ok : A → Outcome E A
  err : E → Outcome E A

-- `if err != nil { return err }`, before the rest of the function.
infixl 5 ◌>>=◌
abbrev pub ◌>>=◌ {ε α β} :
    {E : Type ε} {A : Type α} {B : Type β} → Outcome E A → (A → Outcome E B) → Outcome E B
err failure >>= next = err failure
ok value >>= next = next value

-- A function that returns a value has passed each of its early returns.
pub >>=_passed {ε α β} :
    {E : Type ε} {A : Type α} {B : Type β} (early : Outcome E A) (next : A → Outcome E B)
    → {out : B} → (early >>= next) ≡ ok out
    → (value : A) × (early ≡ ok value) × (next value ≡ ok out)
>>=_passed (err failure) next returned = cc
>>=_passed (ok value) next returned = (value, refl, returned)
