-- ===== src/Condition/Evaluation.antt =====
-- policy/condition/func.go: the evaluation of a list of condition functions.
use silo_pkg.Prelude.{
  ◌≡◌, refl, ◌↔◌, List, [], ◌∷◌, Bool, true, false, Outcome, ret, ◌>>=◌, map, All, false≢true,
}
use silo_pkg.Prelude.Bytes.{Bytes}
use silo_pkg.Condition.Values.{Values}
use silo_pkg.Condition.NonEmpty.{NoEmpty}
use silo_pkg.Condition.Functions.{evaluate_all}
use silo_pkg.Condition.StringSets.{StringSets, StringSetLaws}
use silo_pkg.Condition.Library.{Library}
use silo_pkg.Condition.Strings.{negated}
use silo_pkg.Condition.StringMeaning.{string_evaluate_lem, like_evaluate_lem}
use silo_pkg.Condition.Concrete.{
  Concrete, string_func, like_func, ip_func, null_func, boolean_func, numeric_func, date_func,
  concrete_evaluate, as_function,
}

-- A test that returns b, before the tests that return `rest`.
in_turn :
    (o tests : Outcome Bool) (b rest : Bool) (P : Type 0)
    → o ≡ ret b
    → tests ≡ ret rest
    → (rest ≡ true) ↔ P
    → (c : Bool) × ((o >>= elim [ true ↦ tests | false ↦ ret false ]) ≡ ret c)
      × ((c ≡ true) ↔ ((o ≡ ret true) × P))
in_turn o tests true rest P e er m = (rest, rw e er, (λ h. (e, m.0 h), λ (h, p). m.1 p))
in_turn o tests false rest P e er m = (false, rw e refl, (λ h. absurd (false≢true h), λ (h, p). cc))

module _ (S : StringSets) (laws : StringSetLaws S) (L : Library) where
  concrete_evaluate-ret :
      (f : Concrete S L) (values : Values)
      → NoEmpty values
      → (b : Bool) × (concrete_evaluate S L f values ≡ ret b)
  unfolding concrete_evaluate
  concrete_evaluate-ret (string_func f) values h =
      let (b, e, m) = string_evaluate_lem S laws L.to_lower f values h in (negated f.negate b, e)
  concrete_evaluate-ret (like_func f) values h =
      let (b, e, m) = like_evaluate_lem S laws f values h in (negated f.negate b, e)
  concrete_evaluate-ret (ip_func f) values h = (_, refl)
  concrete_evaluate-ret (null_func f) values h = (_, refl)
  concrete_evaluate-ret (boolean_func f) values h = (_, refl)
  concrete_evaluate-ret (numeric_func f) values h = (_, refl)
  concrete_evaluate-ret (date_func f) values h = (_, refl)

  -- If every key of the request that is present has a value, `Functions.Evaluate` returns, for condition
  -- functions of any kinds, and it returns true exactly if each of them does.
  pub evaluate_all-ret :
      (text : Concrete S L → Bytes) (functions : List (Concrete S L)) (values : Values)
      → NoEmpty values
      → (b : Bool) × (evaluate_all (map (as_function S L text) functions) values ≡ ret b)
        × ((b ≡ true) ↔ All (λ f. concrete_evaluate S L f values ≡ ret true) functions)
  unfolding evaluate_all as_function
  evaluate_all-ret text [] values h = (true, refl, (λ e. tt, λ u. refl))
  evaluate_all-ret text (f ∷ functions) values h =
      let (b, e) = concrete_evaluate-ret f values h in
      let (rest, er, m) = evaluate_all-ret text functions values h in
      in_turn (concrete_evaluate S L f values) _ b rest _ e er m
