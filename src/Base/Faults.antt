-- ===== src/Base/Faults.antt =====
-- Code that may read or write outside of an array: the run then has no defined outcome.
use mathlib.Core.List.{List, [], ◌∷◌}
use mathlib.Core.Path.{◌≡◌, refl}
use Prim.Native.Nat.{ℕ, zero, suc, ◌<◌}
use native.Mathlib.Omega.{arith}
use netproc.Base.Lists.{length, get_or}

pub data Run {ℓ} (A : Type ℓ) : Type ℓ where
  ok : A → Run A
  fault : Run A

infixl 5 ◌>>=◌
abbrev pub ◌>>=◌ {ℓ κ} : {A : Type ℓ} {B : Type κ} → Run A → (A → Run B) → Run B
ok a >>= f = f a
fault >>= f = fault

pub >>=_assoc {ℓ} :
    {A B C : Type ℓ} (m : Run A) (f : A → Run B) (g : B → Run C)
    → m >>= f >>= g ≡ m >>= (λ a. f a >>= g)
>>=_assoc (ok a) f g = refl
>>=_assoc fault f g = refl

-- The run ends, in a value that has the property.
abbrev pub Returns {ℓ κ} : {V : Type ℓ} → Run V → (V → Type κ) → Type (ℓ ⊔ κ)
Returns {V} m P = (a : V) × (m ≡ ok a) × P a

module _ {ℓ} {A : Type ℓ} where
  -- `a[i]`
  unfoldable pub at : List A → ℕ → Run A
  at [] i = fault
  at (x ∷ xs) zero = ok x
  at (x ∷ xs) (suc i) = at xs i

  pub at-get_or :
      (xs : List A) (index : ℕ) (other : A)
      → index < length xs
      → at xs index ≡ ok (get_or xs index other)
  unfolding at
  at-get_or [] index other within = absurd (omega arith)
  at-get_or (x ∷ xs) zero other within = refl
  at-get_or (x ∷ xs) (suc index) other within = at-get_or xs index other (omega arith)
