-- ===== src/Condition/StringSets.antt =====
-- The type set.StringSet of github.com/minio/minio-go, as an interface: the operations that package
-- condition calls, and what their documentation says of them.
use silo_pkg.Prelude.{◌≡◌, ◌↔◌, Bool, true, false, ◌&&◌, List, any, Outcome, ret}
use silo_pkg.Prelude.Bytes.{Bytes, eqb}

pub record StringSets : Type 1 where
  pub Set : Type 0
  pub create_string_set : List Bytes → Set
  -- the function may panic
  pub apply_func : (Bytes → Outcome Bytes) → Set → Outcome Set
  pub func_match : (Bytes → Bytes → Bool) → Set → Bytes → Set
  pub intersection : Set → Set → Set
  pub equals : Set → Set → Bool
  pub set_is_empty : Set → Bool
  pub contains : Set → Bytes → Bool
  pub to_slice : Set → List Bytes

-- `t` holds what g makes of the members of s, and nothing else.
abbrev pub IsImage : (S : StringSets) → (Bytes → Bytes) → S.Set → S.Set → Type 0
IsImage S g s t =
    (b : Bytes) → (S.contains t b ≡ true) ↔ ((a : Bytes) × (S.contains s a ≡ true) × (g a ≡ b))

pub record StringSetLaws (S : StringSets) : Type 0 where
  pub contains-create_string_set :
      (xs : List Bytes) (a : Bytes) → S.contains (S.create_string_set xs) a ≡ any (λ x. eqb x a) xs
  pub contains-intersection :
      (s t : S.Set) (a : Bytes)
      → S.contains (S.intersection s t) a ≡ (S.contains s a && S.contains t a)
  pub contains-func_match :
      (m : Bytes → Bytes → Bool) (s : S.Set) (v a : Bytes)
      → S.contains (S.func_match m s v) a ≡ (S.contains s a && m a v)
  pub equals_iff :
      (s t : S.Set) → (S.equals s t ≡ true) ↔ ((a : Bytes) → S.contains s a ≡ S.contains t a)
  pub set_is_empty_iff :
      (s : S.Set) → (S.set_is_empty s ≡ false) ↔ ((a : Bytes) × (S.contains s a ≡ true))
  pub apply_func-ret :
      (f : Bytes → Outcome Bytes) (g : Bytes → Bytes) (s : S.Set)
      → ((a : Bytes) → f a ≡ ret (g a))
      → (t : S.Set) × (S.apply_func f s ≡ ret t) × IsImage S g s t
