-- ===== src/Prelude/Clean.antt =====
-- What `path.Clean` makes of a name with no '/'.
use silo_pkg.Prelude.Tests.{◌==◌, Bool-cases}
use silo_pkg.Prelude.Bytes.{Bytes, codes, eqb, contains_byte, eqb→eq}
use silo_pkg.Prelude.Paths.{split, clean, clean_parts}
use Prim.Native.Nat.{ℕ}
use mathlib.Core.Path.{◌≡◌, refl, sym}
use mathlib.Core.Logic.{◌⊎◌, inl, inr}
use mathlib.Core.Bool.{false}
use mathlib.Core.List.{[], ◌∷◌}
use native.Mathlib.Omega.{arith}

pub split_none : (c : ℕ) (s : Bytes) → contains_byte c s ≡ false → split c s ≡ s ∷ []
unfolding contains_byte split
split_none c [] h = refl
split_none c (x ∷ s) h = ground (arith, split_none c s)

clean_single :
    (part : Bytes)
    → (clean_parts false (part ∷ []) ≡ codes ".") ⊎ (clean_parts false (part ∷ []) ≡ part)
unfolding clean_parts eqb
clean_single [] = inl refl
clean_single (x ∷ s) = elim (Bool-cases (eqb (x ∷ s) (codes "."))) [
  | inl dot ↦ inl (rw dot)
  | inr other ↦ elim (Bool-cases (eqb (x ∷ s) (codes ".."))) [
    | inl dots ↦ inr (rw (other, dots) (sym (eqb→eq (x ∷ s) (codes "..") dots)))
    | inr name ↦ inr (rw (other, name))
  ]
]

-- `path.Clean` of a name with no '/' has none either.
pub clean_no_slash :
    (s : Bytes) → contains_byte b'/' s ≡ false → contains_byte b'/' (clean s) ≡ false
unfolding clean contains_byte
clean_no_slash [] h = refl
clean_no_slash (c ∷ s) h =
    let e : (c == b'/') ≡ false = ground arith in
    rw (split_none b'/' (c ∷ s) h)
      (rw e (elim (clean_single (c ∷ s)) [ inl dot ↦ rw dot | inr same ↦ rw same h ]))
