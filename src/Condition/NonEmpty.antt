-- ===== src/Condition/NonEmpty.antt =====
-- policy/condition/value.go: values of a request of which every key has one.
use silo_pkg.Prelude.{◌≡◌, ◌≢◌, false, List, [], ◌∷◌, is_empty, Option, some, Bool-cases, inl, inr}
use silo_pkg.Prelude.Bytes.{Bytes, eqb}
use silo_pkg.Condition.Values.{Values, values_at}

-- No key has an empty list of values.
abbrev pub NoEmpty : Values → Type 0
NoEmpty [] = Unit {0}
NoEmpty ((k, v) ∷ values) = (is_empty v ≡ false) × NoEmpty values

-- A key that is present has a first value then.
pub values_at-NoEmpty :
    (values : Values) (k : Bytes) → NoEmpty values → values_at values k ≢ some []
unfolding values_at
values_at-NoEmpty [] k h e = cc
values_at-NoEmpty ((j, v) ∷ values) k h e = elim (Bool-cases (eqb j k)) [
  | inl same ↦ nonempty v h.0 (rw same at e)
  | inr other ↦ values_at-NoEmpty values k h.1 (rw other at e)
]
  where
    nonempty :
        (v : List Bytes) → is_empty v ≡ false → ◌≡◌ {A = Option (List Bytes)} (some v) (some []) → ⊥
    nonempty [] h e = cc
    nonempty (x ∷ v) h e = cc
