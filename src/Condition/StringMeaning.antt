-- ===== src/Condition/StringMeaning.antt =====
-- policy/condition/stringfunc.go: which requests the condition functions on strings accept.
use silo_pkg.Prelude.{
  ◌≡◌, refl, sym, ap, ◌∙◌, ◌↔◌, List, [], ◌∷◌, Bool, true, false, not, ret, arith, Bool-cases, inl,
  inr, &&_split,
}
use silo_pkg.Prelude.Bytes.{Bytes, eqb, eqb→eq, eqb_refl}
use silo_pkg.Wildcard.Pattern.{Matches, meaning}
use silo_pkg.Wildcard.Correct.{matches, matches_iff}
use silo_pkg.Condition.Values.{Values}
use silo_pkg.Condition.Keys.{get_values_by_key}
use silo_pkg.Condition.NonEmpty.{NoEmpty}
use silo_pkg.Condition.StringSets.{StringSets, StringSetLaws, IsImage}
use silo_pkg.Condition.Strings.{
  StringFunc, for_all, negated, substitute, string_test, string_evaluate, like_loop, like_evaluate,
}
use silo_pkg.Condition.Images.{
  substituted, substitute-ret, fold, IsOneOf, folded-IsImage, string_test_any, string_test_all,
}

-- A test of the values of a request, of one of them or of every one.
abbrev pub Quantified : Bool → (Bytes → Type 0) → List Bytes → Type 0
Quantified true P rvalues = (v : Bytes) → IsOneOf v rvalues → P v
Quantified false P rvalues = (v : Bytes) × IsOneOf v rvalues × P v

module _ (S : StringSets) (laws : StringSetLaws S) where
  -- One of the condition's values, with the keys that it names replaced, is v, up to `fold`.
  abbrev pub EqualsOne : (Bytes → Bytes) → Values → S.Set → Bytes → Type 0
  EqualsOne fold_text values s v =
      (a : Bytes) × (S.contains s a ≡ true) × (fold_text (substituted values a) ≡ fold_text v)

  -- One of the condition's values, with the keys that it names replaced, is a pattern for v.
  abbrev pub LikeOne : Values → S.Set → Bytes → Type 0
  LikeOne values s v =
      (a : Bytes) × (S.contains s a ≡ true) × Matches false (meaning (substituted values a)) v

  -- What the sets that `eval` builds hold.
  module _ (values : Values) (s t : S.Set) (rvalues : List Bytes) (fold_text : Bytes → Bytes)
      (substituted_s r f : S.Set) (image : IsImage S (substituted values) s substituted_s)
      (left : IsImage S fold_text (S.create_string_set rvalues) r)
      (right : IsImage S fold_text substituted_s f) where
    of_right :
        (b : Bytes)
        → S.contains f b ≡ true
        → (a : Bytes) × (S.contains s a ≡ true) × (fold_text (substituted values a) ≡ b)
    of_right b m =
        let (c, mc, ec) = (right b).0 m in
        let (a, ma, ea) = (image c).0 mc in (a, ma, ap fold_text ea ∙ ec)

    in_right :
        (a : Bytes) → S.contains s a ≡ true → S.contains f (fold_text (substituted values a)) ≡ true
    in_right a m = (right _).1 (substituted values a, (image _).1 (a, m, refl), refl)

    in_left : (v : Bytes) → IsOneOf v rvalues → S.contains r (fold_text v) ≡ true
    in_left v h = (left _).1 (v, laws.contains-create_string_set rvalues v ∙ h, refl)

    of_left :
        (b : Bytes) → S.contains r b ≡ true → (v : Bytes) × IsOneOf v rvalues × (fold_text v ≡ b)
    of_left b m =
        let (v, mv, ev) = (left b).0 m in
        (v, sym (laws.contains-create_string_set rvalues v) ∙ mv, ev)

    tested :
        (to_lower : Bytes → Bytes) (every : Bool)
        → (string_test S to_lower every r f ≡ true)
          ↔ Quantified every (EqualsOne fold_text values s) rvalues
    tested to_lower true = (
      λ h v hv.
          of_right (fold_text v)
            ((string_test_all S laws to_lower r f).0 h (fold_text v) (in_left v hv)),
      λ h. (string_test_all S laws to_lower r f).1 λ b m.
          let (v, hv, ev) = of_left b m in
          let (a, ma, ea) = h v hv in rw (← ev, ← ea) (in_right a ma),
    )
    tested to_lower false = (
      λ h.
          let (b, mr, mf) = (string_test_any S laws to_lower r f).0 h in
          let (v, hv, ev) = of_left b mr in
          let (a, ma, ea) = of_right b mf in (v, hv, (a, ma, ea ∙ sym ev)),
      λ (v, hv, (a, ma, ea)).
          (string_test_any S laws to_lower r f).1
            (fold_text v, in_left v hv, rw (← ea) (in_right a ma)),
    )

  -- If every key of the request that is present has a value, `stringFunc.evaluate` returns, negated for
  -- the negated functions, whether some value of the request under the function's key, or with
  -- ForAllValues every one, equals a value of the condition in which the keys are replaced, both in lower
  -- case if the function ignores case.
  pub string_evaluate_lem :
      (to_lower : Bytes → Bytes) (f : StringFunc S.Set) (values : Values)
      → NoEmpty values
      → (b : Bool) × (string_evaluate S to_lower f values ≡ ret (negated f.negate b))
        × ((b ≡ true)
            ↔ Quantified
                (for_all f)
                (EqualsOne (fold to_lower f.ignore_case) values f.values)
                (get_values_by_key values f.k))
  unfolding string_evaluate
  string_evaluate_lem to_lower f values h =
      let (u, eu, iu) =
        laws.apply_func-ret (substitute values) (substituted values) f.values
          (substitute-ret values h) in
      let rvalues = get_values_by_key values f.k in
      let (r, er, ir) =
        folded-IsImage S laws to_lower f.ignore_case (S.create_string_set rvalues) in
      let (g, eg, ig) = folded-IsImage S laws to_lower f.ignore_case u in
      (
        string_test S to_lower (for_all f) r g,
        rw (eu, er, eg) refl,
        tested values f.values u rvalues (fold to_lower f.ignore_case) u r g iu ir ig to_lower
            (for_all f),
      )

  matched_lem :
      (values : Values) (s u : S.Set) (v : Bytes)
      → IsImage S (substituted values) s u
      → (not (S.set_is_empty (S.func_match matches u v)) ≡ true) ↔ LikeOne values s v
  matched_lem values s u v image = (
    λ h.
        let (b, m) = (laws.set_is_empty_iff (S.func_match matches u v)).0 (ground arith) in
        let both = &&_split _ _ (sym (laws.contains-func_match matches u v b) ∙ m) in
        let (a, ma, ea) = (image b).0 both.0 in
        (a, ma, (matches_iff (substituted values a) v).1.0 (ap (λ x. matches x v) ea ∙ both.1)),
    λ (a, ma, d).
        let inside : S.contains u (substituted values a) ≡ true = (image _).1 (a, ma, refl) in
        let m : S.contains (S.func_match matches u v) (substituted values a) ≡ true =
          laws.contains-func_match matches u v _
          ∙ rw (inside, (matches_iff (substituted values a) v).1.1 d) refl in
        let e = (laws.set_is_empty_iff (S.func_match matches u v)).1 (substituted values a, m) in
        ground arith,
  )

  -- The loop over the values of the request is a test of every one, or of some one.
  looped :
      (every : Bool) (values : Values) (s u : S.Set) (rvalues : List Bytes)
      → IsImage S (substituted values) s u
      → (like_loop S every u rvalues ≡ true) ↔ Quantified every (LikeOne values s) rvalues
  unfolding like_loop
  looped true values s u [] image = (λ h v hv. cc, λ h. refl)
  looped false values s u [] image = (λ h. cc, λ (v, hv, d). cc)
  looped true values s u (w ∷ rvalues) image =
      let rest = looped true values s u rvalues image in
      let here = matched_lem values s u w image in
      (
        λ h v hv. elim (Bool-cases (eqb w v)) [
          | inl same ↦ rw (← eqb→eq w v same) (here.0 (ground arith))
          | inr other ↦ rest.0 (ground arith) v (ground arith)
        ],
        λ h.
            let first = here.1 (h w (ground (arith, eqb_refl w))) in
            let others = rest.1 (λ v hv. h v (ground arith)) in ground arith,
      )
  looped false values s u (w ∷ rvalues) image =
      let rest = looped false values s u rvalues image in
      let here = matched_lem values s u w image in
      (
        λ h. elim (Bool-cases (not (S.set_is_empty (S.func_match matches u w)))) [
          | inl m ↦ (w, ground (arith, eqb_refl w), here.0 m)
          | inr m ↦ let (v, hv, d) = rest.0 (ground arith) in (v, ground arith, d)
        ],
        λ (v, hv, d). elim (Bool-cases (eqb w v)) [
          | inl same ↦ let first = here.1 (rw (eqb→eq w v same) d) in ground arith
          | inr other ↦ let others = rest.1 (v, ground arith, d) in ground arith
        ],
      )

  -- If every key of the request that is present has a value, `stringLikeFunc.evaluate` returns, negated for
  -- StringNotLike, whether some value of the request under the function's key, or with ForAllValues every
  -- one, is matched by a value of the condition in which the keys are replaced, read as a pattern.
  pub like_evaluate_lem :
      (f : StringFunc S.Set) (values : Values)
      → NoEmpty values
      → (b : Bool) × (like_evaluate S f values ≡ ret (negated f.negate b))
        × ((b ≡ true)
            ↔ Quantified (for_all f) (LikeOne values f.values) (get_values_by_key values f.k))
  unfolding like_evaluate
  like_evaluate_lem f values h =
      let (u, eu, iu) =
        laws.apply_func-ret (substitute values) (substituted values) f.values
          (substitute-ret values h) in
      let rvalues = get_values_by_key values f.k in
      (
        like_loop S (for_all f) u rvalues,
        rw eu refl,
        looped (for_all f) values f.values u rvalues iu,
      )
