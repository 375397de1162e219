-- ===== src/Prelude/Results.antt =====
-- Results that carry an error value, and the bind of a `do` block.
use mathlib.Core.Path.{◌≡◌, refl, ap}
use mathlib.Core.Logic.{◌⊎◌, inl, inr}

pub data Result {ℓ} (E A : Type ℓ) : Type ℓ where
  ok : A → Result E A
  err : E → Result E A

infixl 5 ◌>>=◌
abbrev pub ◌>>=◌ {ℓ} : {E A B : Type ℓ} → Result E A → (A → Result E B) → Result E B
ok a >>= f = f a
err e >>= f = err e

pub Result-cases {ℓ} :
    {E A : Type ℓ} (r : Result E A) → ((a : A) × (r ≡ ok a)) ⊎ ((e : E) × (r ≡ err e))
Result-cases (ok a) = inl (a, refl)
Result-cases (err e) = inr (e, refl)

module _ {ℓ} {E A : Type ℓ} where
  from_ok : A → Result E A → A
  from_ok a (ok b) = b
  from_ok a (err e) = a

  -- Results with the error type written out.
  abbrev Same : Result E A → Result E A → Type ℓ
  Same r s = r ≡ s

  pub ok_injective : (a b : A) → Same (ok a) (ok b) → a ≡ b
  unfolding from_ok
  ok_injective a b h = ap (from_ok a) h
