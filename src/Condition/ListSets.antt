-- ===== src/Condition/ListSets.antt =====
-- Lists of strings have the operations of set.StringSet, and the laws that package condition relies on.
use silo_pkg.Prelude.{
  ◌≡◌, refl, sym, ◌∙◌, ◌↔◌, List, [], ◌∷◌, Bool, true, false, ◌&&◌, Outcome, ret, ◌>>=◌, is_empty,
  arith, Bool-cases, inl, inr, any, all, if◌then◌else◌, &&_split, Bool-ext,
}
use silo_pkg.Prelude.Bytes.{Bytes, eqb, eqb→eq, eqb_refl}
use silo_pkg.Condition.StringSets.{StringSets, StringSetLaws, IsImage}

abbrev holds : List Bytes → Bytes → Bool
holds s a = any (λ x. eqb x a) s

unfoldable pub map_outcome : (Bytes → Outcome Bytes) → List Bytes → Outcome (List Bytes)
map_outcome f [] = ret []
map_outcome f (x ∷ s) = f x >>= λ y. map_outcome f s >>= λ t. ret (y ∷ t)

unfoldable pub select : (Bytes → Bool) → List Bytes → List Bytes
select p [] = []
select p (x ∷ s) = let rest = select p s in if p x then x ∷ rest else rest

-- `any` over the one list for every member of the other, both ways
unfoldable pub same_members : List Bytes → List Bytes → Bool
same_members s t = all (holds t) s && all (holds s) t

abbrev pub list_sets : StringSets
list_sets = record {
  Set = List Bytes;
  create_string_set = λ xs. xs;
  apply_func = map_outcome;
  func_match = λ m s v. select (λ a. m a v) s;
  intersection = λ s t. select (holds t) s;
  equals = same_members;
  set_is_empty = is_empty;
  contains = holds;
  to_slice = λ s. s;
}

holds-select :
    (p : Bytes → Bool) (s : List Bytes) (a : Bytes) → holds (select p s) a ≡ (holds s a && p a)
unfolding select
holds-select p [] a = refl
holds-select p (x ∷ s) a = elim (Bool-cases (eqb x a)) [
  | inl same ↦ rw (eqb→eq x a same) (ground (arith, holds-select p s a, eqb_refl a))
  | inr other ↦ ground (arith, holds-select p s a)
]

all_has :
    (s t : List Bytes) → all (holds t) s ≡ true → (a : Bytes) → holds s a ≡ true → holds t a ≡ true
all_has [] t h a m = cc
all_has (x ∷ s) t h a m =
    let (first, rest) = &&_split (holds t x) (all (holds t) s) h in
    elim (Bool-cases (eqb x a)) [
      | inl same ↦ rw (← eqb→eq x a same) first
      | inr other ↦ all_has s t rest a (ground arith)
    ]

has_all :
    (s t : List Bytes)
    → ((a : Bytes) → holds s a ≡ true → holds t a ≡ true)
    → all (holds t) s ≡ true
has_all [] t h = refl
has_all (x ∷ s) t h =
    let first = h x (ground (arith, eqb_refl x)) in
    let rest = has_all s t (λ a m. h a (ground arith)) in ground arith

same_members_iff :
    (s t : List Bytes) → (same_members s t ≡ true) ↔ ((a : Bytes) → holds s a ≡ holds t a)
unfolding same_members
same_members_iff s t = (
  λ h a.
      let (to, from) = &&_split (all (holds t) s) (all (holds s) t) h in
      Bool-ext _ _ (all_has s t to a) (all_has t s from a),
  λ h.
      let to = has_all s t (λ a m. sym (h a) ∙ m) in
      let from = has_all t s (λ a m. h a ∙ m) in ground arith,
)

first_member : (s : List Bytes) → (is_empty s ≡ false) ↔ ((a : Bytes) × (holds s a ≡ true))
first_member [] = (λ h. cc, λ (a, m). cc)
first_member (x ∷ s) = (λ h. (x, ground (arith, eqb_refl x)), λ m. refl)

map-IsImage :
    (f : Bytes → Outcome Bytes) (g : Bytes → Bytes) (s : List Bytes)
    → ((a : Bytes) → f a ≡ ret (g a))
    → (t : List Bytes) × (map_outcome f s ≡ ret t) × IsImage list_sets g s t
unfolding map_outcome
map-IsImage f g [] h = ([], refl, λ b. (λ m. cc, λ (a, m, e). cc))
map-IsImage f g (x ∷ s) h =
    let (t, e, image) = map-IsImage f g s h in
    (
      g x ∷ t,
      rw (h x, e) refl,
      λ b. (
        λ m. elim (Bool-cases (eqb (g x) b)) [
          | inl same ↦ (x, ground (arith, eqb_refl x), eqb→eq (g x) b same)
          | inr other ↦ let (a, ma, ea) = (image b).0 (ground arith) in (a, ground arith, ea)
        ],
        λ (a, ma, ea). elim (Bool-cases (eqb x a)) [
          | inl same ↦ rw (← ea, eqb→eq x a same) (ground (arith, eqb_refl (g a)))
          | inr other ↦ let m = (image b).1 (a, ground arith, ea) in ground arith
        ],
      ),
    )

-- The operations on lists keep the laws.
pub list_set_laws : StringSetLaws list_sets
list_set_laws = record {
  contains-create_string_set = λ xs a. refl;
  contains-intersection = λ s t a. holds-select (holds t) s a;
  contains-func_match = λ m s v a. holds-select (λ x. m x v) s a;
  equals_iff = same_members_iff;
  set_is_empty_iff = first_member;
  apply_func-ret = map-IsImage;
}
