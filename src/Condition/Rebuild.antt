-- ===== src/Condition/Rebuild.antt =====
-- policy/condition/func.go: a condition function of one scalar value is built again from its map.
use silo_pkg.Prelude.{
  ◌≡◌, refl, sym, ap, ◌∙◌, List, [], ◌∷◌, Bool, true, false, Option, none, some, Bool-cases, inl,
  inr, All,
}
use mathlib.Core.Option
use mathlib.Core.Path.{subst}
use silo_pkg.Prelude.Bytes.{Bytes, eqb}
use silo_pkg.Prelude.Ints.{ℤ}
use silo_pkg.Condition.Keys.{Key}
use silo_pkg.Condition.Name.{
  Name, name_is_valid, names, boolean, numeric_equals, numeric_greater_than,
  numeric_greater_than_equals, numeric_greater_than_if_exists, numeric_less_than,
  numeric_less_than_equals, numeric_not_equals,
}
use silo_pkg.Condition.Value.{string_value, int_value, ValueSet}
use silo_pkg.Condition.StringSets.{StringSets}
use silo_pkg.Condition.Library.{Library}
use silo_pkg.Condition.Numeric.{
  Comparison, equals, not_equals, greater_than, greater_than_equals, less_than, less_than_equals,
  new_numeric_equals_func, new_numeric_not_equals_func, new_numeric_less_than_func,
  new_numeric_less_than_equals_func, new_numeric_greater_than_func,
  new_numeric_greater_than_if_exists_func, new_numeric_greater_than_equals_func, new_numeric_func,
  numeric_with, value_to_int,
}
use silo_pkg.Condition.Flags.{new_boolean_func, null_value, new_null_func}
use silo_pkg.Condition.StringValues.{
  new_string_equals_func, new_string_not_equals_func, new_string_equals_ignore_case_func,
  new_string_not_equals_ignore_case_func, new_binary_equals_func, new_string_like_func,
  new_string_not_like_func,
}
use silo_pkg.Condition.Dates.{
  new_date_equals_func, new_date_not_equals_func, new_date_less_than_func,
  new_date_less_than_equals_func, new_date_greater_than_func, new_date_greater_than_equals_func,
}
use silo_pkg.Condition.Addresses.{new_ip_address_func, new_not_ip_address_func}
use silo_pkg.Condition.Concrete.{
  Concrete, string_func, like_func, ip_func, null_func, boolean_func, numeric_func, date_func,
  concrete_name, concrete_key, map_values, condition_func_map, constructor_at, call, build,
}
use silo_pkg.Condition.Built.{numeric, numeric_built, null_built, boolean_rebuilt}

-- Null, Bool and the functions on numbers have one scalar value.
abbrev pub IsScalar : {S : StringSets} {L : Library} → Concrete S L → Type 0
IsScalar (string_func f) = ⊥
IsScalar (like_func f) = ⊥
IsScalar (ip_func f) = ⊥
IsScalar (null_func f) = Unit {0}
IsScalar (boolean_func f) = Unit {0}
IsScalar (numeric_func f) = Unit {0}
IsScalar (date_func f) = ⊥

module _ (S : StringSets) (L : Library) where
  -- What a constructor returns is built again from its map, if it has one scalar value.
  abbrev pub Rebuilds : Concrete S L → Type 0
  Rebuilds f =
      IsScalar f
      → (name_is_valid (concrete_name S L f) ≡ true)
        × (build S L (concrete_name S L f) (concrete_key S L f) (map_values S L f) ≡ some f)

  -- It is enough to show this of the function up to an equation.
  rebuilt :
      (f g : Concrete S L)
      → f ≡ g
      → name_is_valid (concrete_name S L f) ≡ true
      → build S L (concrete_name S L f) (concrete_key S L f) (map_values S L f) ≡ some f
      → Rebuilds g
  rebuilt f g e valid built = subst Rebuilds e (λ scalar. (valid, built))

  abbrev Sound : (Key → ValueSet → Bytes → Option (Concrete S L)) → Type 0
  Sound new =
      (key : Key) (values : ValueSet) (q : Bytes) (f : Concrete S L)
      → new key values q ≡ some f
      → Rebuilds f

  mapped :
      {A : Type 0} (wrap : A → Concrete S L) (o : Option A) (f : Concrete S L)
      → Option.map wrap o ≡ some f
      → (a : A) × (o ≡ some a) × (wrap a ≡ f)
  mapped wrap none f h = cc
  mapped wrap (some a) f h = (a, refl, cc)

  constructor_at-Sound :
      (table : List (Bytes × (Key → ValueSet → Bytes → Option (Concrete S L)))) (name : Bytes)
      (new : Key → ValueSet → Bytes → Option (Concrete S L))
      → All (λ entry. Sound entry.1) table
      → constructor_at S L table name ≡ some new
      → Sound new
  unfolding constructor_at
  constructor_at-Sound [] name new h e = cc
  constructor_at-Sound ((n, other) ∷ table) name new h e = elim (Bool-cases (eqb n name)) [
    | inl same ↦
        let at : some other ≡ some new = rw same at e in
        let same_new : other ≡ new = cc in subst Sound same_new h.0
    | inr differ ↦ constructor_at-Sound table name new h.1 (rw differ at e)
  ]

  not_scalar :
      {A : Type 0} (wrap : A → Concrete S L) (new : Key → ValueSet → Bytes → Option A)
      → ((a : A) → ¬ IsScalar (wrap a))
      → Sound (λ key values q. Option.map wrap (new key values q))
  not_scalar wrap new never key values q f h scalar =
      let (a, ea, ef) = mapped wrap (new key values q) f h in
      absurd (never a (subst IsScalar (sym ef) scalar))

  numeric-Sound :
      (n : Bytes) (if_exists : Bool) (cond : Comparison)
      → name_is_valid (record { qualifier = []; name = n }) ≡ true
      → ((key : Key) (v : ℤ)
          → build S L (record { qualifier = []; name = n }) key (int_value v ∷ [])
            ≡ some (numeric_func (numeric n if_exists cond key v)))
      → Sound
          (λ key values q. Option.map numeric_func (new_numeric_func n if_exists key values cond))
  unfolding new_numeric_func concrete_name concrete_key map_values
  numeric-Sound n if_exists cond valid built key values q f h scalar =
      let (a, ea, ef) = mapped numeric_func (new_numeric_func n if_exists key values cond) f h in
      let (v, ev) = numeric_built n if_exists key cond (value_to_int values) a ea in
      rebuilt _ f (ap numeric_func ev ∙ ef) valid (built key v) scalar

  null-Sound : Sound (λ key values q. Option.map null_func (new_null_func key values q))
  unfolding new_null_func concrete_name concrete_key map_values build constructor_at
      condition_func_map null_value eqb name_is_valid names
  null-Sound key values q f h scalar =
      let (a, ea, ef) = mapped null_func (new_null_func key values q) f h in
      let (b, eb) = null_built key (null_value values) a ea in
      rebuilt _ f (ap null_func eb ∙ ef) refl refl scalar

  boolean_at :
      (key : Key) (text : Bytes)
      → build S L (record { qualifier = []; name = boolean }) key (string_value text ∷ [])
        ≡ Option.map boolean_func (new_boolean_func key (string_value text ∷ []) [])
  unfolding build constructor_at condition_func_map eqb
  boolean_at key text = refl

  boolean-Sound : Sound (λ key values q. Option.map boolean_func (new_boolean_func key values q))
  unfolding concrete_name concrete_key map_values name_is_valid names eqb
  boolean-Sound key values q f h scalar =
      let (a, ea, ef) = mapped boolean_func (new_boolean_func key values q) f h in
      let (text, again, eb) = boolean_rebuilt key values q a ea in
      rebuilt _ f (ap boolean_func eb ∙ ef) refl
        (boolean_at key text ∙ ap (Option.map boolean_func) again) scalar

  table-Sound : All (λ entry. Sound entry.1) (condition_func_map S L)
  unfolding condition_func_map new_numeric_equals_func new_numeric_not_equals_func
      new_numeric_less_than_func new_numeric_less_than_equals_func new_numeric_greater_than_func
      new_numeric_greater_than_if_exists_func new_numeric_greater_than_equals_func build call
      constructor_at eqb numeric_with new_numeric_func value_to_int name_is_valid names
  table-Sound = (
    not_scalar string_func (new_string_equals_func S L) (λ a h. h),
    (
      not_scalar string_func (new_string_not_equals_func S L) (λ a h. h),
      (
        not_scalar string_func (new_string_equals_ignore_case_func S L) (λ a h. h),
        (
          not_scalar string_func (new_string_not_equals_ignore_case_func S L) (λ a h. h),
          (
            not_scalar string_func (new_binary_equals_func S L) (λ a h. h),
            (
              not_scalar like_func (new_string_like_func S L) (λ a h. h),
              (
                not_scalar like_func (new_string_not_like_func S L) (λ a h. h),
                (
                  not_scalar ip_func (new_ip_address_func L) (λ a h. h),
                  (
                    not_scalar ip_func (new_not_ip_address_func L) (λ a h. h),
                    (
                      null-Sound,
                      (
                        boolean-Sound,
                        (
                          numeric-Sound numeric_equals false equals refl (λ key v. refl),
                          (
                            numeric-Sound numeric_not_equals false not_equals refl (λ key v. refl),
                            (
                              numeric-Sound numeric_less_than false less_than refl (λ key v. refl),
                              (
                                numeric-Sound numeric_less_than_equals false less_than_equals refl
                                    (λ key v. refl),
                                (
                                  numeric-Sound numeric_greater_than false greater_than refl
                                      (λ key v. refl),
                                  (
                                    numeric-Sound numeric_greater_than_if_exists true greater_than
                                        refl (λ key v. refl),
                                    (
                                      numeric-Sound numeric_greater_than_equals false
                                          greater_than_equals refl (λ key v. refl),
                                      (
                                        not_scalar date_func (new_date_equals_func L) (λ a h. h),
                                        (
                                          not_scalar date_func (new_date_not_equals_func L)
                                              (λ a h. h),
                                          (
                                            not_scalar date_func (new_date_less_than_func L)
                                                (λ a h. h),
                                            (
                                              not_scalar date_func
                                                  (new_date_less_than_equals_func L) (λ a h. h),
                                              (
                                                not_scalar date_func (new_date_greater_than_func L)
                                                    (λ a h. h),
                                                (
                                                  not_scalar date_func
                                                      (new_date_greater_than_equals_func L)
                                                      (λ a h. h),
                                                  tt,
                                                ),
                                              ),
                                            ),
                                          ),
                                        ),
                                      ),
                                    ),
                                  ),
                                ),
                              ),
                            ),
                          ),
                        ),
                      ),
                    ),
                  ),
                ),
              ),
            ),
          ),
        ),
      ),
    ),
  )

  called :
      (new : Option (Key → ValueSet → Bytes → Option (Concrete S L))) (key : Key)
      (values : ValueSet) (q : Bytes) (f : Concrete S L)
      → ((sound : Key → ValueSet → Bytes → Option (Concrete S L)) → new ≡ some sound → Sound sound)
      → call S L new key values q ≡ some f
      → Rebuilds f
  unfolding call
  called none key values q f h e = cc
  called (some new) key values q f h e = h new refl key values q f e

  pub built-Rebuilds :
      (n : Name) (key : Key) (values : ValueSet) (f : Concrete S L)
      → build S L n key values ≡ some f
      → Rebuilds f
  unfolding build
  built-Rebuilds n key values f h =
      called (constructor_at S L (condition_func_map S L) n.name) key values n.qualifier f
        (λ new at. constructor_at-Sound (condition_func_map S L) n.name new table-Sound at) h
