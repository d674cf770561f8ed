-- ===== src/Condition/Strings.antt =====
-- policy/condition/stringfunc.go: the condition functions on strings.
use silo_pkg.Prelude.{
  ℕ, zero, suc, ◌-◌, List, [], ◌∷◌, ◌++◌, Bool, true, false, not, ◌||◌, Option, none, some,
  if◌then◌else◌, length, is_empty, Outcome, ret, panic, ◌>>=◌,
}
use silo_pkg.Prelude.Bytes.{Bytes, eqb, codes, has_prefix}
use silo_pkg.Wildcard.Correct.{matches}
use silo_pkg.Condition.Names.Lists.{common_keys}
use silo_pkg.Condition.Values.{Values, values_at, key_name}
use silo_pkg.Condition.Keys.{Key, get_values_by_key}
use silo_pkg.Condition.Name.{Name, for_all_values}
use silo_pkg.Condition.StringSets.{StringSets}

-- `KeyName.VarName`
unfoldable pub var_name : Bytes → Bytes
var_name key = codes "${" ++ key ++ codes "}"

-- what is left of strings.ReplaceAll behind the next `skip` bytes, for an old text that is not empty
unfoldable pub replace_from : ℕ → Bytes → Bytes → Bytes → Bytes
replace_from skip old new [] = []
replace_from (suc skip) old new (c ∷ s) = replace_from skip old new s
replace_from zero old new (c ∷ s) =
    let behind = replace_from (length old - 1) old new s in
    let rest = replace_from zero old new s in
    if has_prefix (c ∷ s) old then new ++ behind else c ∷ rest

-- strings.ReplaceAll(s, old, new)
unfoldable pub replace_all : Bytes → Bytes → Bytes → Bytes
unfolding replace_from has_prefix
replace_all s old new = replace_from 0 old new s

-- one round of the loop of `substitute`; to index an empty slice panics
unfoldable pub substitute_key : Option (List Bytes) → Bytes → Bytes → Outcome Bytes
substitute_key none key v = ret v
substitute_key (some []) key v = panic
substitute_key (some (value ∷ rvalues)) key v =
    if not (is_empty value) then ret (replace_all v (var_name key) value) else ret v

unfoldable pub substitute_keys : List Bytes → Values → Bytes → Outcome Bytes
unfolding substitute_key
substitute_keys [] values v = ret v
substitute_keys (key ∷ keys) values v =
    substitute_key (values_at values (key_name key)) key v >>= substitute_keys keys values

-- the function that `substitute` returns
unfoldable pub substitute : Values → Bytes → Outcome Bytes
unfolding substitute_keys
substitute values v = substitute_keys common_keys values v

-- `stringFunc`; `stringLikeFunc` has the same fields
pub record StringFunc (Set : Type 0) : Type 0 where
  pub n : Name
  pub k : Key
  pub values : Set
  pub ignore_case : Bool
  pub base64 : Bool
  pub negate : Bool

-- `f.n.qualifier == forAllValues`
unfoldable pub for_all : {Set : Type 0} → StringFunc Set → Bool
unfolding eqb
for_all f = eqb f.n.qualifier for_all_values

-- what `evaluate` makes of the result of `eval`
unfoldable pub negated : Bool → Bool → Bool
negated negate result = if negate then not result else result

-- `to_lower` is strings.ToLower.
module _ (S : StringSets) (to_lower : Bytes → Bytes) where
  -- the two sets in lower case, for a function that ignores case
  unfoldable pub folded : Bool → S.Set → Outcome S.Set
  folded ignore_case s = if ignore_case then S.apply_func (λ a. ret (to_lower a)) s else ret s

  -- the test of `stringFunc.eval` on the two sets
  unfoldable pub string_test : Bool → S.Set → S.Set → Bool
  string_test every rvalues fvalues =
      let ivalues = S.intersection rvalues fvalues in
      if every
      then S.set_is_empty rvalues || S.equals rvalues ivalues
      else not (S.set_is_empty ivalues)

  -- `stringFunc.eval`
  unfoldable pub string_eval : StringFunc S.Set → Values → Outcome Bool
  unfolding folded string_test for_all
  string_eval f values = do
    substituted ← S.apply_func (substitute values) f.values
    rvalues ← folded f.ignore_case (S.create_string_set (get_values_by_key values f.k))
    fvalues ← folded f.ignore_case substituted
    ret (string_test (for_all f) rvalues fvalues)

  -- `stringFunc.evaluate`
  unfoldable pub string_evaluate : StringFunc S.Set → Values → Outcome Bool
  unfolding string_eval
  string_evaluate f values = string_eval f values >>= λ result. ret (negated f.negate result)

module _ (S : StringSets) where
  -- the loop of `stringLikeFunc.eval` over the values of the request
  unfoldable pub like_loop : Bool → S.Set → List Bytes → Bool
  like_loop every fvalues [] = every
  like_loop every fvalues (v ∷ rvalues) =
      let matched = not (S.set_is_empty (S.func_match matches fvalues v)) in
      let rest = like_loop every fvalues rvalues in
      if every then (if not matched then false else rest) else (if matched then true else rest)

  -- `stringLikeFunc.eval`
  unfoldable pub like_eval : StringFunc S.Set → Values → Outcome Bool
  unfolding like_loop for_all
  like_eval f values = S.apply_func (substitute values) f.values >>= λ fvalues.
      ret (like_loop (for_all f) fvalues (get_values_by_key values f.k))

  -- `stringLikeFunc.evaluate`
  unfoldable pub like_evaluate : StringFunc S.Set → Values → Outcome Bool
  unfolding like_eval
  like_evaluate f values = like_eval f values >>= λ result. ret (negated f.negate result)
