-- ===== src/Condition/Functions.antt =====
-- policy/condition/func.go: the interface `Function`, and lists of functions.
use silo_pkg.Prelude.{
  Bool, false, not, List, [], ◌∷◌, Outcome, all_of, any, all, length, ◌==◌, if◌then◌else◌,
}
use silo_pkg.Prelude.Bytes.{Bytes, eqb}
use silo_pkg.Condition.Values.{Values}
use silo_pkg.Condition.Keys.{Key, KeySet, key_add}

-- The methods of the interface that the policy package calls. An evaluation may panic.
pub record Function : Type 0 where
  pub evaluate : Values → Outcome Bool
  pub key : Key
  pub text : Bytes

abbrev pub Functions : Type 0
Functions = List Function

-- `Functions.Evaluate`
unfoldable pub evaluate_all : Functions → Values → Outcome Bool
evaluate_all functions values = all_of (λ (f : Function). f.evaluate values) functions

keys_into : KeySet → Functions → KeySet
unfolding key_add
keys_into set [] = set
keys_into set (f ∷ functions) = keys_into (key_add set f.key) functions

-- `Functions.Keys`
unfoldable pub keys : Functions → KeySet
unfolding keys_into
keys functions = keys_into [] functions

found_in : Bytes → Functions → Bool
found_in text functions = any (λ (f : Function). eqb text f.text) functions

-- `Functions.Equals`
unfoldable pub functions_equal : Functions → Functions → Bool
unfolding found_in eqb
functions_equal functions funcs =
    if not (length functions == length funcs)
    then false
    else all (λ (f : Function). found_in f.text funcs) functions
