-- ===== src/Condition/Built.antt =====
-- policy/condition/numericfunc.go, boolfunc.go, nullfunc.go: what the constructors of the functions of one
-- scalar value return.
use silo_pkg.Prelude.{
  ◌≡◌, refl, [], ◌∷◌, Bool, true, false, Option, none, some, Bool-cases, inl, inr,
}
use silo_pkg.Prelude.Bytes.{Bytes, eqb, codes}
use silo_pkg.Prelude.Ints.{ℤ}
use silo_pkg.Condition.Names.Keys.{aws_secure_transport}
use silo_pkg.Condition.Keys.{Key, key_is}
use silo_pkg.Condition.Value.{string_value, int_value, bool_value, invalid_value, ValueSet}
use silo_pkg.Condition.Numeric.{NumericFunc, Comparison, numeric_with}
use silo_pkg.Condition.Flags.{
  BooleanFunc, boolean_text, new_boolean_func, boolean_with, NullFunc, null_with, parse_bool,
  bool_text,
}

-- The function that a numeric constructor returns.
abbrev pub numeric : Bytes → Bool → Comparison → Key → ℤ → NumericFunc
numeric n if_exists cond key v = record {
  n = record { qualifier = []; name = n };
  k = key;
  value = v;
  c = cond;
  if_exists = if_exists;
}

pub numeric_built :
    (n : Bytes) (if_exists : Bool) (key : Key) (cond : Comparison) (v : Option ℤ) (f : NumericFunc)
    → numeric_with n if_exists key cond v ≡ some f
    → (i : ℤ) × (numeric n if_exists cond key i ≡ f)
unfolding numeric_with
numeric_built n if_exists key cond none f h = cc
numeric_built n if_exists key cond (some v) f h = (v, cc)

pub null_built :
    (key : Key) (v : Option Bool) (f : NullFunc)
    → null_with key v ≡ some f
    → (b : Bool) × (record { k = key; value = b } ≡ f)
unfolding null_with
null_built key none f h = cc
null_built key (some b) f h = (b, cc)

boolean_built :
    (key : Key) (v : Option Bytes) (f : BooleanFunc)
    → boolean_with key v ≡ some f
    → (text : Bytes) × (v ≡ some text) × (record { k = key; value = text } ≡ f)
unfolding boolean_with
boolean_built key none f h = cc
boolean_built key (some text) f h = (text, refl, cc)

bool_text-some : (s : Bytes) (b : Option Bool) (text : Bytes) → bool_text s b ≡ some text → s ≡ text
unfolding bool_text
bool_text-some s none text h = cc
bool_text-some s (some b) text h = cc

true_again : bool_text (codes "true") (parse_bool (codes "true")) ≡ some (codes "true")
unfolding bool_text parse_bool eqb
true_again = refl

false_again : bool_text (codes "false") (parse_bool (codes "false")) ≡ some (codes "false")
unfolding bool_text parse_bool eqb
false_again = refl

-- The text that a boolean condition keeps is read as itself.
boolean_text_again :
    (values : ValueSet) (text : Bytes)
    → boolean_text values ≡ some text
    → boolean_text (string_value text ∷ []) ≡ some text
unfolding boolean_text
boolean_text_again [] text h = cc
boolean_text_again (bool_value true ∷ []) text h = let again = true_again in cc
boolean_text_again (bool_value false ∷ []) text h = let again = false_again in cc
boolean_text_again (string_value s ∷ []) text h =
    let same = bool_text-some s (parse_bool s) text h in cc
boolean_text_again (int_value i ∷ []) text h = cc
boolean_text_again (invalid_value ∷ []) text h = cc
boolean_text_again (bool_value b ∷ w ∷ values) text h = cc
boolean_text_again (string_value b ∷ w ∷ values) text h = cc
boolean_text_again (int_value b ∷ w ∷ values) text h = cc
boolean_text_again (invalid_value ∷ w ∷ values) text h = cc

pub boolean_rebuilt :
    (key : Key) (values : ValueSet) (q : Bytes) (f : BooleanFunc)
    → new_boolean_func key values q ≡ some f
    → (text : Bytes) × (new_boolean_func key (string_value text ∷ []) []
        ≡ some (record { k = key; value = text }))
      × (record { k = key; value = text } ≡ f)
unfolding new_boolean_func boolean_with
boolean_rebuilt key values q f h = elim (Bool-cases (key_is key aws_secure_transport)) [
  | inr other ↦ absurd (none_some (rw other at h))
  | inl allowed ↦
      let (text, et, ef) = boolean_built key (boolean_text values) f (rw allowed at h) in
      (text, rw (allowed, boolean_text_again values text et) refl, ef)
]
  where
    none_some : ◌≡◌ {A = Option BooleanFunc} none (some f) → ⊥
    none_some h = cc
