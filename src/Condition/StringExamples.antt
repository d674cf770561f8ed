-- ===== src/Condition/StringExamples.antt =====
-- policy/condition/stringfunc.go: the results on string conditions at concrete requests.
use silo_pkg.Prelude.{
  ◌+◌, List, [], ◌∷◌, Bool, true, false, ◌&&◌, leb, ◌≡◌, refl, ◌↔◌, ret, if◌then◌else◌,
}
use silo_pkg.Prelude.Bytes.{Bytes, codes}
use silo_pkg.Wildcard.Correct.{matches}
use silo_pkg.Condition.Names.Keys.{s3_prefix}
use silo_pkg.Condition.Names.Lists.{common_keys}
use silo_pkg.Condition.Values.{Values, values_at, key_name}
use silo_pkg.Condition.Keys.{to_key, get_values_by_key}
use silo_pkg.Condition.Name.{string_not_equals_ignore_case, string_like, for_all_values}
use silo_pkg.Condition.Strings.{
  StringFunc, for_all, negated, string_evaluate, like_evaluate, replace_all, substitute, var_name,
}
use silo_pkg.Condition.ListSets.{list_sets, list_set_laws, map_outcome, select}
use silo_pkg.Condition.Images.{fold}
use silo_pkg.Condition.StringMeaning.{
  Quantified, EqualsOne, LikeOne, string_evaluate_lem, like_evaluate_lem,
}

-- Upper case to lower case in ASCII.
abbrev lower : Bytes → Bytes
lower [] = []
lower (c ∷ s) = (if leb b'A' c && leb c b'Z' then c + 32 else c) ∷ lower s

abbrev request : Values
request = (codes "prefix", codes "home/Bob" ∷ []) ∷ (codes "username", codes "bob" ∷ []) ∷ []

-- not equal to "Home/${aws:username}", in any case of the letters
abbrev not_home : StringFunc (List Bytes)
not_home = record {
  n = record { qualifier = []; name = string_not_equals_ignore_case };
  k = to_key s3_prefix;
  values = codes "Home/${aws:username}" ∷ [];
  ignore_case = true;
  base64 = false;
  negate = true;
}

-- every value like "home/${aws:username}*"
abbrev below_home : StringFunc (List Bytes)
below_home = record {
  n = record { qualifier = for_all_values; name = string_like };
  k = to_key s3_prefix;
  values = codes "home/${aws:username}*" ∷ [];
  ignore_case = false;
  base64 = false;
  negate = false;
}

replaced :
    replace_all (codes "${a}/${a}${a}") (codes "${a}") (codes "${a}b") ≡ codes "${a}b/${a}b${a}b"
unfolding replace_all
replaced = refl

not_home_fails : string_evaluate list_sets lower not_home request ≡ ret false
unfolding string_evaluate map_outcome substitute common_keys values_at key_name get_values_by_key
    to_key negated select replace_all var_name
not_home_fails = refl

below_home_fails : like_evaluate list_sets below_home request ≡ ret false
unfolding like_evaluate map_outcome substitute common_keys values_at key_name get_values_by_key
    to_key negated select matches replace_all var_name
below_home_fails = refl

string_evaluate_lem_example :
    (b : Bool) × (string_evaluate list_sets lower not_home request ≡ ret (negated true b))
    × ((b ≡ true)
        ↔ Quantified
            (for_all not_home)
            (EqualsOne list_sets list_set_laws
              (fold lower true)
              request
              (codes "Home/${aws:username}" ∷ []))
            (get_values_by_key request (to_key s3_prefix)))
string_evaluate_lem_example =
    string_evaluate_lem list_sets list_set_laws lower not_home request (refl, (refl, tt))

like_evaluate_lem_example :
    (b : Bool) × (like_evaluate list_sets below_home request ≡ ret (negated false b))
    × ((b ≡ true)
        ↔ Quantified
            (for_all below_home)
            (LikeOne list_sets list_set_laws request (codes "home/${aws:username}*" ∷ []))
            (get_values_by_key request (to_key s3_prefix)))
like_evaluate_lem_example =
    like_evaluate_lem list_sets list_set_laws below_home request (refl, (refl, tt))
