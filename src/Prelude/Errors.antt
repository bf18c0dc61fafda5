-- ===== src/Prelude/Errors.antt =====
-- A Go result `(value, error)`: the value, or the error that the code names.
use mathlib.Core.Path.{◌≡◌, refl}
use mathlib.Core.Logic.{◌⊎◌, inl, inr}

pub data Result {ℓ κ} (E : Type κ) (A : Type ℓ) : Type (ℓ ⊔ κ) where
  ok : A → Result E A
  err : E → Result E A

-- What a function does behind an `if err != nil { return … }`.
infixl 5 ◌>>=◌
abbrev pub ◌>>=◌ {ℓ κ ε} :
    {E : Type ε} {A : Type ℓ} {B : Type κ} → Result E A → (A → Result E B) → Result E B
err failure >>= next = err failure
ok value >>= next = next value

module _ {ℓ ε} {E : Type ε} {A : Type ℓ} where
  pub ok-injective : {a b : A} → ◌≡◌ {A = Result E A} (ok a) (ok b) → a ≡ b
  ok-injective h = cc

  -- Where the whole returns a value, so did the first call.
  pub >>=-ok {κ} :
      {B : Type κ} {b : B} (first : Result E A) (next : A → Result E B)
      → (first >>= next) ≡ ok b
      → (a : A) × (first ≡ ok a) × (next a ≡ ok b)
  >>=-ok (err failure) next returned = cc
  >>=-ok (ok value) next returned = (value, refl, returned)

  pub Result-cases : (r : Result E A) → ((a : A) × (r ≡ ok a)) ⊎ ((e : E) × (r ≡ err e))
  Result-cases (ok a) = inl (a, refl)
  Result-cases (err e) = inr (e, refl)
