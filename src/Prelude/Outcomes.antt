-- ===== src/Prelude/Outcomes.antt =====
-- What a Go function does that may panic: it returns a value, or it panics.
use mathlib.Core.Path.{◌≡◌, refl}
use mathlib.Core.Bool.{Bool, true, false}
use mathlib.Core.List.{List, [], ◌∷◌}
use native.Mathlib.Omega.{arith}
use silo_pkg.Prelude.Lists.{any, all, All}

pub data Outcome {ℓ} (A : Type ℓ) : Type ℓ where
  ret : A → Outcome A
  panic : Outcome A

infixl 5 ◌>>=◌
abbrev pub ◌>>=◌ {ℓ κ} : {A : Type ℓ} {B : Type κ} → Outcome A → (A → Outcome B) → Outcome B
ret a >>= f = f a
panic >>= f = panic

module _ {ℓ} {A : Type ℓ} where
  -- `for _, x := range xs { if f(x) { return true } }; return false`
  abbrev pub any_of : (A → Outcome Bool) → List A → Outcome Bool
  any_of f [] = ret false
  any_of f (x ∷ xs) = f x >>= elim [ true ↦ ret true | false ↦ any_of f xs ]

  -- `for _, x := range xs { if !f(x) { return false } }; return true`
  abbrev pub all_of : (A → Outcome Bool) → List A → Outcome Bool
  all_of f [] = ret true
  all_of f (x ∷ xs) = f x >>= elim [ true ↦ all_of f xs | false ↦ ret false ]

  pub any_of-ret :
      (f : A → Outcome Bool) (p : A → Bool) (xs : List A)
      → All (λ x. f x ≡ ret (p x)) xs
      → any_of f xs ≡ ret (any p xs)
  any_of-ret f p [] h = refl
  any_of-ret f p (x ∷ xs) h = ground (arith, h.0, any_of-ret f p xs h.1)

  pub all_of-ret :
      (f : A → Outcome Bool) (p : A → Bool) (xs : List A)
      → All (λ x. f x ≡ ret (p x)) xs
      → all_of f xs ≡ ret (all p xs)
  all_of-ret f p [] h = refl
  all_of-ret f p (x ∷ xs) h = ground (arith, h.0, all_of-ret f p xs h.1)
