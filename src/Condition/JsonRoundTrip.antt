-- ===== src/Condition/JsonRoundTrip.antt =====
-- policy/condition/func.go: what UnmarshalJSON makes of the map that MarshalJSON writes.
use silo_pkg.Prelude.{
  ◌≡◌, refl, sym, ◌∙◌, List, [], ◌∷◌, is_empty, ◌++◌, append-nil, append_assoc, Bool, true, false,
  ◌||◌, some, Bool-cases, inl, inr, All, any, false≢true, map, arith,
}
use mathlib.Core.Option
use mathlib.Core.List.{Permᴰ}
use mathlib.Core.List.Permᴰ
use silo_pkg.Prelude.Bytes.{Bytes, eqb}
use silo_pkg.Condition.Keys.{Key, key_is_valid, key_string}
use silo_pkg.Condition.Name.{Name, name_string}
use silo_pkg.Condition.Value.{ValueSet}
use silo_pkg.Condition.StringSets.{StringSets}
use silo_pkg.Condition.Library.{Library}
use silo_pkg.Condition.Concrete.{Concrete, concrete_name, concrete_key, map_values, to_map, build}
use silo_pkg.Condition.Rebuild.{IsScalar, built-Rebuilds}
use silo_pkg.Condition.TextForms.{parse_name-name_string, parse_key-key_string}
use silo_pkg.Condition.JsonOrder.{build_all-Permᴰ}
use silo_pkg.Condition.Json.{
  KeyArgs, Nested, put_values, put_entries, put_function, marshal_into, marshal_functions,
  build_args, build_all, unmarshal_functions,
}

-- Whether the map has an entry of this name.
has_name : Nested → Bytes → Bool
has_name nm fname = any (λ (e : Bytes × KeyArgs). eqb e.0 fname) nm

put_function-new :
    (nm : Nested) (fname : Bytes) (entries : List (Key × ValueSet))
    → has_name nm fname ≡ false
    → put_function nm fname entries ≡ nm ++ (fname, put_entries [] entries) ∷ []
unfolding has_name put_function
put_function-new [] fname entries h = refl
put_function-new ((n, m) ∷ nm) fname entries h = elim (Bool-cases (eqb n fname)) [
  | inl same ↦ absurd (false≢true (ground arith))
  | inr other ↦ rw (other, put_function-new nm fname entries (rw other at h)) refl
]

has_name-append :
    (nm : Nested) (n : Bytes) (m : KeyArgs) (fname : Bytes)
    → has_name (nm ++ (n, m) ∷ []) fname ≡ (has_name nm fname || eqb n fname)
unfolding has_name
has_name-append [] n m fname = ground arith
has_name-append (e ∷ nm) n m fname = rw (has_name-append nm n m fname) (ground arith)

module _ (S : StringSets) (L : Library) where
  -- A condition function that the table of constructors has built, of one scalar value, on a supported key.
  abbrev pub IsBuilt : Concrete S L → Type 0
  IsBuilt f =
      ((n : Name) × (key : Key) × (values : ValueSet) × (build S L n key values ≡ some f))
      × IsScalar f
      × (key_is_valid (concrete_key S L f) ≡ true)

  name_text : Concrete S L → Bytes
  name_text f = name_string (concrete_name S L f)

  -- No two of the functions have the same name.
  abbrev pub NamesApart : List (Concrete S L) → Type 0
  NamesApart [] = Unit
  NamesApart (f ∷ functions) =
      All (λ g. eqb (name_string (concrete_name S L f)) (name_string (concrete_name S L g)) ≡ false)
        functions
      × NamesApart functions

  entry : Concrete S L → Bytes × KeyArgs
  entry f = (name_text f, (key_string (concrete_key S L f), map_values S L f) ∷ [])

  still_new :
      (nm : Nested) (n : Bytes) (m : KeyArgs) (functions : List (Concrete S L))
      → All (λ g. has_name nm (name_text g) ≡ false) functions
      → All (λ g. eqb n (name_text g) ≡ false) functions
      → All (λ g. has_name (nm ++ (n, m) ∷ []) (name_text g) ≡ false) functions
  still_new nm n m [] h d = tt
  still_new nm n m (g ∷ functions) h d =
      (rw (has_name-append nm n m (name_text g), h.0, d.0) refl, still_new nm n m functions h.1 d.1)

  one_entry :
      (f : Concrete S L)
      → key_is_valid (concrete_key S L f) ≡ true
      → put_entries [] (to_map S L f) ≡ (key_string (concrete_key S L f), map_values S L f) ∷ []
  unfolding to_map put_entries put_values
  one_entry f valid = rw valid refl

  marshal_into-apart :
      (nm : Nested) (functions : List (Concrete S L))
      → All IsBuilt functions
      → NamesApart functions
      → All (λ g. has_name nm (name_text g) ≡ false) functions
      → marshal_into S L nm functions ≡ nm ++ map entry functions
  unfolding marshal_into name_text entry
  marshal_into-apart nm [] b d h = sym (append-nil nm)
  marshal_into-apart nm (f ∷ functions) b d h =
      let (built, scalar, valid) = b.0 in
      let first = put_function-new nm (name_text f) (to_map S L f) h.0 in
      rw (first, one_entry f valid)
        (marshal_into-apart (nm ++ entry f ∷ []) functions b.1 d.1 (
            still_new nm (name_text f) ((key_string (concrete_key S L f), map_values S L f) ∷ [])
              functions h.1 d.0)
          ∙ append_assoc nm (entry f ∷ []) (map entry functions))

  build_args-one :
      (f : Concrete S L)
      → IsBuilt f
      → build_args S L
          (concrete_name S L f)
          ((key_string (concrete_key S L f), map_values S L f) ∷ [])
        ≡ some (f ∷ [])
  unfolding build_args Option.bind
  build_args-one f ((n, key, values, built), scalar, valid) =
      rw
        (
          parse_key-key_string (concrete_key S L f) valid,
          (built-Rebuilds S L n key values f built scalar).1,
        )
        refl

  build_all-entries :
      (functions : List (Concrete S L))
      → All IsBuilt functions
      → build_all S L (map entry functions) ≡ some functions
  unfolding build_all entry name_text Option.bind
  build_all-entries [] b = refl
  build_all-entries (f ∷ functions) b =
      let ((n, key, values, built), scalar, valid) = b.0 in
      rw
        (
          parse_name-name_string (concrete_name S L f)
              (built-Rebuilds S L n key values f built scalar).0,
          build_args-one f b.0,
          build_all-entries functions b.1,
        )
        refl

  none_yet :
      (functions : List (Concrete S L)) → All (λ g. has_name [] (name_text g) ≡ false) functions
  unfolding has_name
  none_yet [] = tt
  none_yet (f ∷ functions) = (refl, none_yet functions)

  not_empty : {e : Bytes × KeyArgs} {l nm : Nested} → Permᴰ (e ∷ l) nm → is_empty nm ≡ false
  not_empty {nm = []} d = cc (Permᴰ.length-eq d)
  not_empty {nm = e ∷ nm} d = refl

  unmarshal_functions-Permᴰ :
      (e : Bytes × KeyArgs) (l nm : Nested) (functions : List (Concrete S L))
      → Permᴰ (e ∷ l) nm
      → build_all S L (e ∷ l) ≡ some functions
      → (found : List (Concrete S L)) × (unmarshal_functions S L nm ≡ some found)
        × Permᴰ functions found
  unfolding unmarshal_functions
  unmarshal_functions-Permᴰ e l nm functions d h =
      let (found, built, order) = build_all-Permᴰ S L functions d h in
      (found, rw (not_empty d) built, order)

  -- Condition functions of one scalar value (Null, Bool or numeric) that the table of constructors has built
  -- on supported keys, no two of one name and at least one of them, are read from the map that is
  -- written for them, whatever the order in which its entries are met: the same functions, in some order.
  pub unmarshal_functions-marshal_functions :
      (f : Concrete S L) (functions : List (Concrete S L)) (nm : Nested)
      → All IsBuilt (f ∷ functions)
      → NamesApart (f ∷ functions)
      → Permᴰ (marshal_functions S L (f ∷ functions)) nm
      → (found : List (Concrete S L)) × (unmarshal_functions S L nm ≡ some found)
        × Permᴰ (f ∷ functions) found
  unfolding marshal_functions
  unmarshal_functions-marshal_functions f functions nm b d order =
      unmarshal_functions-Permᴰ (entry f) (map entry functions) nm (f ∷ functions)
        (rw (marshal_into-apart [] (f ∷ functions) b d (none_yet (f ∷ functions))) at order)
        (build_all-entries (f ∷ functions) b)
