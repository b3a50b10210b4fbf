-- ===== src/Base/Run.antt =====
-- The result of Go code that may panic (a nil dereference, an index out of range).
use mathlib.Core.Path.{◌≡◌, refl}
use mathlib.Core.Logic.{◌⊎◌, inl, inr}

pub data Run {ℓ} (A : Type ℓ) : Type ℓ where
  returns : A → Run A
  panics : Run A

infixl 5 ◌>>=◌
abbrev pub ◌>>=◌ {ℓ κ} : {A : Type ℓ} {B : Type κ} → Run A → (A → Run B) → Run B
returns a >>= f = f a
panics >>= f = panics

pub Run-cases {ℓ} : {A : Type ℓ} (r : Run A) → (r ≡ panics) ⊎ ((a : A) × (r ≡ returns a))
Run-cases (returns a) = inr (a, refl)
Run-cases panics = inl refl
