-- ===== src/Result.antt =====
-- A Python function that may raise, as a value: `err` holds what it raised, `ok` what it returned.
use mathlib.Core.Logic.{◌⊎◌, inl, inr}
use mathlib.Core.Path.{◌≡◌, refl}

pub data Result {ℓ κ} (E : Type ℓ) (A : Type κ) : Type (ℓ ⊔ κ) where
  err : E → Result E A
  ok : A → Result E A

module _ {ℓ κ μ} {E : Type ℓ} {A : Type κ} {B : Type μ} where
  infixl 5 ◌>>=◌ ◌>>◌
  abbrev pub ◌>>=◌ : Result E A → (A → Result E B) → Result E B
  ◌>>=◌ r rest = elim r [ err e ↦ err e | ok a ↦ rest a ]

  abbrev pub ◌>>◌ : Result E A → Result E B → Result E B
  ◌>>◌ r rest = elim r [ err e ↦ err e | ok a ↦ rest ]

  -- Two statements in a row that return have both returned.
  pub ok_parts :
      (first : Result E A) (rest : A → Result E B) {b : B}
      → (first >>= rest) ≡ ok b
      → (a : A) × (first ≡ ok a) × (rest a ≡ ok b)
  ok_parts (ok a) rest returned = (a, refl, returned)
  ok_parts (err e) rest returned = cc

pub Result-cases {ℓ κ} :
    {E : Type ℓ} {A : Type κ} (r : Result E A) → ((a : A) × (r ≡ ok a)) ⊎ ((e : E) × (r ≡ err e))
Result-cases (ok a) = inl (a, refl)
Result-cases (err e) = inr (e, refl)
