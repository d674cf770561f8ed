-- ===== src/Policy/Variables.antt =====
-- policy/resource.go: the replacement of variables in a pattern ends, panics only at an empty list of
-- values, and changes nothing where there are no values.
use silo_pkg.Prelude.{
  ℕ, zero, suc, ◌≤◌, ◌≡◌, ◌≢◌, refl, ap, ◌∙◌, true, List, [], ◌∷◌, ◌++◌, Option, none, some, arith,
  ret, panic, length, drop, append_assoc,
}
use silo_pkg.Prelude.Bytes.{Bytes, codes, contains_byte}
use silo_pkg.Condition.Values.{Values, values_at, before_byte, from_byte, key_name}
use silo_pkg.Policy.Resource.{
  Resource, replacement, replace_loop, expand, resource_match, match_resource, path_match,
}
use silo_pkg.Policy.ResourceSet.{ResourceSet, resources_match}
use silo_pkg.Condition.NonEmpty.{NoEmpty, values_at-NoEmpty}

around_byte :
    (c : ℕ) (s : Bytes)
    → contains_byte c s ≡ true
    → before_byte c s ++ c ∷ drop 1 (from_byte c s) ≡ s
unfolding contains_byte before_byte from_byte
around_byte c [] h = cc
around_byte c (x ∷ s) h = ground (arith, around_byte c s)

before_from : (c : ℕ) (s : Bytes) → before_byte c s ++ from_byte c s ≡ s
unfolding before_byte from_byte
before_from c [] = refl
before_from c (x ∷ s) = ground (arith, before_from c s)

length-from_byte : (c : ℕ) (s : Bytes) → length (from_byte c s) ≤ length s
unfolding from_byte
length-from_byte c [] = omega arith
length-from_byte c (x ∷ s) = ground (arith, length-from_byte c s)

length-drop_one : (s : Bytes) → length (drop 1 s) ≤ length s
length-drop_one [] = omega arith
length-drop_one (x ∷ s) = omega arith

length-behind : (c : ℕ) (s : Bytes) → length (drop 1 (from_byte c s)) ≤ length s
length-behind c s = omega (arith, length-drop_one (from_byte c s), length-from_byte c s)

-- What a variable of an unknown key is written back as.
kept_text :
    (d e : ℕ) (ckey rest : Bytes) (s : Bytes)
    → ckey ++ b'}' ∷ rest ≡ s
    → (codes "${" ++ ckey ++ codes "}") ++ rest ≡ b'$' ∷ b'{' ∷ s
kept_text d e ckey rest s h = ap (λ t. b'$' ∷ b'{' ∷ t) (append_assoc ckey (codes "}") rest ∙ h)

replace_nothing :
    (f : ℕ) (remain : Bytes) → length remain ≤ f → replace_loop f [] remain ≡ ret remain
unfolding replace_loop values_at replacement
replace_nothing zero [] h = refl
replace_nothing zero (c ∷ remain) h = absurd (omega arith)
replace_nothing (suc f) [] h = refl
replace_nothing (suc f) (c ∷ []) h = refl
replace_nothing (suc f) (c ∷ d ∷ []) h = refl
replace_nothing (suc f) (c ∷ d ∷ e ∷ remain) h = ground (
  arith,
  replace_nothing f (d ∷ e ∷ remain) (omega arith),
  replace_nothing f (drop 1 (from_byte b'}' (e ∷ remain)))
      (omega (arith, length-behind b'}' (e ∷ remain))),
  kept_text d e (before_byte b'}' (e ∷ remain)) (drop 1 (from_byte b'}' (e ∷ remain))) (e ∷ remain),
  around_byte b'}' (e ∷ remain),
)

-- With no condition values a pattern stays as it is, whatever '$', '{' and '}' stand in it.
pub expand_nothing : (pattern : Bytes) → expand [] pattern ≡ ret pattern
unfolding expand
expand_nothing pattern =
    rw (replace_nothing (length (from_byte b'$' pattern)) (from_byte b'$' pattern) (omega arith))
      (ap ret (before_from b'$' pattern))

-- `MatchResource` compares the pattern as it is written: variables in it are taken literally.
pub match_resource-path_match :
    (r : Resource) (resource : Bytes)
    → match_resource r resource ≡ ret (path_match r.pattern resource)
unfolding match_resource resource_match
match_resource-path_match r resource = ground (arith, expand_nothing r.pattern)

-- With any two amounts of fuel that the text is no longer than, the loop that replaces variables gives
-- the same result.
replace_fuel :
    (f g : ℕ) (values : Values) (remain : Bytes)
    → length remain ≤ f
    → length remain ≤ g
    → replace_loop f values remain ≡ replace_loop g values remain
unfolding replace_loop
replace_fuel zero zero values remain h k = refl
replace_fuel zero (suc g) values [] h k = refl
replace_fuel zero (suc g) values (c ∷ remain) h k = absurd (omega arith)
replace_fuel (suc f) zero values [] h k = refl
replace_fuel (suc f) zero values (c ∷ remain) h k = absurd (omega arith)
replace_fuel (suc f) (suc g) values [] h k = refl
replace_fuel (suc f) (suc g) values (c ∷ []) h k = refl
replace_fuel (suc f) (suc g) values (c ∷ d ∷ []) h k = refl
replace_fuel (suc f) (suc g) values (c ∷ d ∷ e ∷ remain) h k = rw (
  replace_fuel f g values (d ∷ e ∷ remain) (omega arith) (omega arith),
  replace_fuel f g values (drop 1 (from_byte b'}' (e ∷ remain)))
      (omega (arith, length-behind b'}' (e ∷ remain)))
      (omega (arith, length-behind b'}' (e ∷ remain))),
)

replacement_no_panic :
    (ckey : Bytes) (found : Option (List Bytes)) → found ≢ some [] → replacement ckey found ≢ panic
unfolding replacement
replacement_no_panic ckey none h = λ e. cc
replacement_no_panic ckey (some []) h = absurd (h refl)
replacement_no_panic ckey (some (v ∷ rvalues)) h = ground arith

replace_no_panic :
    (f : ℕ) (values : Values) (remain : Bytes)
    → NoEmpty values
    → replace_loop f values remain ≢ panic
unfolding replace_loop
replace_no_panic zero values remain h = λ e. cc
replace_no_panic (suc f) values [] h = λ e. cc
replace_no_panic (suc f) values (c ∷ []) h = λ e. cc
replace_no_panic (suc f) values (c ∷ d ∷ []) h = λ e. cc
replace_no_panic (suc f) values (c ∷ d ∷ e ∷ remain) h = ground (
  arith,
  replace_no_panic f values (d ∷ e ∷ remain) h,
  replace_no_panic f values (drop 1 (from_byte b'}' (e ∷ remain))) h,
  replacement_no_panic (before_byte b'}' (e ∷ remain))
      (values_at values (key_name (before_byte b'}' (e ∷ remain))))
      (values_at-NoEmpty values (key_name (before_byte b'}' (e ∷ remain))) h),
)

pub resource_match_no_panic :
    (r : Resource) (resource : Bytes) (values : Values)
    → NoEmpty values
    → resource_match r resource values ≢ panic
unfolding resource_match expand
resource_match_no_panic r resource values h =
    let loop =
      replace_no_panic (length (from_byte b'$' r.pattern)) values (from_byte b'$' r.pattern) h in
    ground (arith, loop)

-- If no key has an empty list of values, to match a set of resources does not panic.
pub resources_match_no_panic :
    (set : ResourceSet) (resource : Bytes) (values : Values)
    → NoEmpty values
    → resources_match set resource values ≢ panic
unfolding resources_match
resources_match_no_panic [] resource values h = λ e. cc
resources_match_no_panic (r ∷ set) resource values h = ground (
  arith,
  resource_match_no_panic r resource values h,
  resources_match_no_panic set resource values h,
)
