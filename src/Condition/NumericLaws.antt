-- ===== src/Condition/NumericLaws.antt =====
-- policy/condition/numericfunc.go: which requests the condition functions on numbers accept.
use silo_pkg.Prelude.{
  ◌≡◌, refl, ap, ◌∙◌, ◌↔◌, ◌⊎◌, inl, inr, ◌+◌, ◌<◌, List, [], ◌∷◌, true, false, not, Option, none,
  some, arith,
}
use silo_pkg.Prelude.Bytes.{Bytes}
use silo_pkg.Prelude.Ints.{ℤ, pos_part, neg_part, atoi}
use silo_pkg.Condition.Values.{Values}
use silo_pkg.Condition.Keys.{get_values_by_key}
use silo_pkg.Condition.Numeric.{
  Comparison, equals, not_equals, greater_than, greater_than_equals, less_than, less_than_equals,
  NumericFunc, compare, number_test, first_number_test, numeric_evaluate,
}

-- i < j and i = j for integers, by their parts
abbrev Less : ℤ → ℤ → Type 0
Less i j = pos_part i + neg_part j < pos_part j + neg_part i

abbrev Same : ℤ → ℤ → Type 0
Same i j = pos_part i + neg_part j ≡ pos_part j + neg_part i

-- What a comparison says of the number of the request and that of the condition.
abbrev pub Compares : Comparison → ℤ → ℤ → Type 0
Compares equals i j = Same i j
Compares not_equals i j = ¬ Same i j
Compares greater_than i j = Less j i
Compares greater_than_equals i j = ¬ Less i j
Compares less_than i j = Less i j
Compares less_than_equals i j = ¬ Less j i

compare_iff : (c : Comparison) (i j : ℤ) → (compare c i j ≡ true) ↔ Compares c i j
unfolding compare
compare_iff equals i j = (λ h. ground arith, λ h. ground arith)
compare_iff not_equals i j = (λ h. ground arith, λ h. ground arith)
compare_iff greater_than i j = (λ h. ground arith, λ h. ground arith)
compare_iff greater_than_equals i j = (λ h. ground arith, λ h. ground arith)
compare_iff less_than i j = (λ h. ground arith, λ h. ground arith)
compare_iff less_than_equals i j = (λ h. ground arith, λ h. ground arith)

abbrev pub Accepts : NumericFunc → List Bytes → Type 0
Accepts f rvalues =
    ((rvalues ≡ []) × (f.if_exists ≡ true))
    ⊎ ((v : Bytes) × (rest : List Bytes) × (i : ℤ) × (rvalues ≡ v ∷ rest)
        × (atoi v ≡ some i)
        × Compares f.c i f.value)

number_iff :
    (f : NumericFunc) (o : Option ℤ)
    → (number_test f o ≡ true) ↔ ((i : ℤ) × (o ≡ some i) × Compares f.c i f.value)
unfolding number_test
number_iff f none = (λ h. cc, λ (i, e, h). cc)
number_iff f (some i) = (
  λ h. (i, refl, (compare_iff f.c i f.value).0 h),
  λ (j, e, h). let same : i ≡ j = cc in rw same ((compare_iff f.c j f.value).1 h),
)

Accepts-iff :
    (f : NumericFunc) (rvalues : List Bytes)
    → (first_number_test f rvalues ≡ true) ↔ Accepts f rvalues
unfolding first_number_test
Accepts-iff f [] = (λ h. inl (refl, h), elim [ inl (e, h) ↦ h | inr (v, rest, i, e, ei, h) ↦ cc ])
Accepts-iff f (v ∷ rvalues) = (
  λ h. let (i, e, c) = (number_iff f (atoi v)).0 h in inr (v, rvalues, i, refl, e, c),
  elim [
    | inl (e, h) ↦ cc
    | inr (w, rest, i, e, ei, h) ↦
        let same : v ≡ w = cc in (number_iff f (atoi v)).1 (i, ap atoi same ∙ ei, h)
  ],
)

-- A numeric condition holds exactly if the request has no value under its key and the condition is one of
-- those that ask "if exists", or if the first value reads as an integer that compares as the condition says.
pub numeric_evaluate_lem :
    (f : NumericFunc) (values : Values)
    → (numeric_evaluate f values ≡ true) ↔ Accepts f (get_values_by_key values f.k)
unfolding numeric_evaluate
numeric_evaluate_lem f values = Accepts-iff f (get_values_by_key values f.k)

-- The comparison that holds exactly when the other one fails.
abbrev pub opposite : Comparison → Comparison
opposite equals = not_equals
opposite not_equals = equals
opposite greater_than = less_than_equals
opposite greater_than_equals = less_than
opposite less_than = greater_than_equals
opposite less_than_equals = greater_than

abbrev pub opposed : NumericFunc → NumericFunc
opposed f = record { n = f.n; k = f.k; value = f.value; c = opposite f.c; if_exists = f.if_exists }

compare-opposite : (c : Comparison) (i j : ℤ) → compare (opposite c) i j ≡ not (compare c i j)
unfolding compare
compare-opposite equals i j = ground arith
compare-opposite not_equals i j = ground arith
compare-opposite greater_than i j = ground arith
compare-opposite greater_than_equals i j = ground arith
compare-opposite less_than i j = ground arith
compare-opposite less_than_equals i j = ground arith

number_test-opposed :
    (f : NumericFunc) (o : Option ℤ)
    → (o ≡ none) ↔ ((number_test f o ≡ false) × (number_test (opposed f) o ≡ false))
unfolding number_test
number_test-opposed f none = (λ h. (refl, refl), λ h. refl)
number_test-opposed f (some i) =
    let other = compare-opposite f.c i f.value in (λ h. cc, λ (h, h'). absurd (ground arith))

-- If the request has a value under the key of a numeric condition, then the first one is no integer of 64
-- bits exactly if the condition and the one with the opposite comparison both fail.
pub numeric_evaluate-opposed :
    (f : NumericFunc) (values : Values) (v : Bytes) (rest : List Bytes)
    → get_values_by_key values f.k ≡ v ∷ rest
    → (atoi v ≡ none)
      ↔ ((numeric_evaluate f values ≡ false) × (numeric_evaluate (opposed f) values ≡ false))
unfolding numeric_evaluate first_number_test
numeric_evaluate-opposed f values v rest e = rw e (number_test-opposed f (atoi v))
