-- ===== src/Condition/Images.antt =====
-- policy/condition/stringfunc.go: what substitution and lower case make of the sets of a string
-- condition, and what the operations on the sets then say of their members.
use silo_pkg.Prelude.{
  ◌≡◌, ◌≢◌, refl, sym, ap, ◌∙◌, ◌↔◌, List, [], ◌∷◌, Bool, true, false, ◌||◌, Option, none, some,
  Outcome, ret, panic, arith, Bool-cases, inl, inr, any, if◌then◌else◌, &&_split, false≢true,
  Bool-ext,
}
use silo_pkg.Prelude.Bytes.{Bytes, eqb}
use silo_pkg.Condition.Names.Lists.{common_keys}
use silo_pkg.Condition.Values.{Values, values_at, key_name}
use silo_pkg.Condition.NonEmpty.{NoEmpty, values_at-NoEmpty}
use silo_pkg.Condition.StringSets.{StringSets, StringSetLaws, IsImage}
use silo_pkg.Condition.Strings.{substitute_key, substitute_keys, substitute, folded, string_test}

-- The text of an outcome that is one.
abbrev pub text_of : Outcome Bytes → Bytes
text_of (ret v) = v
text_of panic = []

-- A condition value with the keys that it names replaced.
abbrev pub substituted : Values → Bytes → Bytes
substituted values a = text_of (substitute values a)

either :
    (b : Bool) (x y : Bytes)
    → (w : Bytes) × (◌≡◌ {A = Outcome Bytes} (if b then ret x else ret y) (ret w))
either true x y = (x, refl)
either false x y = (y, refl)

substitute_key-ret :
    (rvalues : Option (List Bytes)) (key v : Bytes)
    → rvalues ≢ some []
    → (w : Bytes) × (substitute_key rvalues key v ≡ ret w)
unfolding substitute_key
substitute_key-ret none key v h = (v, refl)
substitute_key-ret (some []) key v h = absurd (h refl)
substitute_key-ret (some (value ∷ rvalues)) key v h = either _ _ _

substitute_keys-ret :
    (keys : List Bytes) (values : Values) (v : Bytes)
    → NoEmpty values
    → (w : Bytes) × (substitute_keys keys values v ≡ ret w)
unfolding substitute_keys
substitute_keys-ret [] values v h = (v, refl)
substitute_keys-ret (key ∷ keys) values v h =
    let (w, e) =
      substitute_key-ret (values_at values (key_name key)) key v
        (values_at-NoEmpty values (key_name key) h) in
    let (u, e') = substitute_keys-ret keys values w h in (u, rw e e')

-- If every key that is present has a value, substitution does not panic.
pub substitute-ret :
    (values : Values)
    → NoEmpty values
    → (a : Bytes) → substitute values a ≡ ret (substituted values a)
unfolding substitute
substitute-ret values h a =
    let (w, e) = substitute_keys-ret common_keys values a h in
    e ∙ ap (λ (o : Outcome Bytes). ret (text_of o)) (sym e)

-- The function that `ignoreCase` applies to the members of both sets.
abbrev pub fold : (Bytes → Bytes) → Bool → Bytes → Bytes
fold to_lower ignore_case a = if ignore_case then to_lower a else a

-- v is one of the values.
abbrev pub IsOneOf : Bytes → List Bytes → Type 0
IsOneOf v rvalues = any (λ x. eqb x v) rvalues ≡ true

module _ (S : StringSets) (laws : StringSetLaws S) (to_lower : Bytes → Bytes) where
  pub folded-IsImage :
      (ignore_case : Bool) (s : S.Set)
      → (t : S.Set) × (folded S to_lower ignore_case s ≡ ret t)
        × IsImage S (fold to_lower ignore_case) s t
  unfolding folded
  folded-IsImage true s = laws.apply_func-ret (λ a. ret (to_lower a)) to_lower s (λ a. refl)
  folded-IsImage false s = (s, refl, λ b. (λ h. (b, h, refl), λ (a, h, e). rw (← e) h))

  -- The test of some value: some text is in both sets.
  pub string_test_any :
      (rvalues fvalues : S.Set)
      → (string_test S to_lower false rvalues fvalues ≡ true)
        ↔ ((a : Bytes) × (S.contains rvalues a ≡ true) × (S.contains fvalues a ≡ true))
  unfolding string_test
  string_test_any rvalues fvalues = (
    λ h.
        let (a, m) = (laws.set_is_empty_iff (S.intersection rvalues fvalues)).0 (ground arith) in
        let both = &&_split _ _ (sym (laws.contains-intersection rvalues fvalues a) ∙ m) in
        (a, both.0, both.1),
    λ (a, r, f).
        let m : S.contains (S.intersection rvalues fvalues) a ≡ true =
          laws.contains-intersection rvalues fvalues a ∙ rw (r, f) refl in
        let e = (laws.set_is_empty_iff (S.intersection rvalues fvalues)).1 (a, m) in ground arith,
  )

  not_member : (s : S.Set) (a : Bytes) → S.set_is_empty s ≡ true → S.contains s a ≡ true → ⊥
  not_member s a e m = false≢true (sym ((laws.set_is_empty_iff s).1 (a, m)) ∙ e)

  -- The test of all values: every text in the one set is in the other.
  pub string_test_all :
      (rvalues fvalues : S.Set)
      → (string_test S to_lower true rvalues fvalues ≡ true)
        ↔ ((a : Bytes) → S.contains rvalues a ≡ true → S.contains fvalues a ≡ true)
  unfolding string_test
  string_test_all rvalues fvalues = (to, from)
    where
      inter : S.Set
      inter = S.intersection rvalues fvalues

      to :
          (S.set_is_empty rvalues || S.equals rvalues inter) ≡ true
          → (a : Bytes) → S.contains rvalues a ≡ true
          → S.contains fvalues a ≡ true
      to h a m = elim (Bool-cases (S.set_is_empty rvalues)) [
        | inl e ↦ absurd (not_member rvalues a e m)
        | inr e ↦
            let same = (laws.equals_iff rvalues inter).0 (ground arith) a in
            (&&_split _ _ (sym (laws.contains-intersection rvalues fvalues a) ∙ sym same ∙ m)).1
      ]

      from :
          ((a : Bytes) → S.contains rvalues a ≡ true → S.contains fvalues a ≡ true)
          → (S.set_is_empty rvalues || S.equals rvalues inter) ≡ true
      from h =
          let e = (laws.equals_iff rvalues inter).1 (λ a.
            Bool-ext _ _ (λ m. laws.contains-intersection rvalues fvalues a ∙ rw (m, h a m) refl)
              (λ m. (&&_split _ _ (sym (laws.contains-intersection rvalues fvalues a) ∙ m)).0)) in
          ground arith
