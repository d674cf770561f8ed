-- ===== src/Ellipses/Expansion.antt =====
-- ellipses/ellipses.go: which lists of labels the expansion of an argument holds.
use silo_pkg.Prelude.{
  ℕ, ◌*◌, List, [], ◌∷◌, ◌++◌, map, length, length-append, ret, ◌≡◌, refl, sym, ap, ◌∙◌, ◌↔◌, ◌⊎◌,
  inl, inr, arith,
}
use silo_pkg.Prelude.Bytes.{Bytes}
use silo_pkg.Ellipses.Patterns.{append_label, append_labels, arg_expander}

-- x is one of the elements.
abbrev pub IsIn : {A : Type 0} → A → List A → Type 0
IsIn x [] = ⊥
IsIn x (y ∷ ys) = (y ≡ x) ⊎ IsIn x ys

-- One label of every list, those of the last list first.
abbrev pub Picks : List (List Bytes) → List Bytes → Type 0
Picks [] r = r ≡ []
Picks (lbls ∷ labels) r =
    (lbl : Bytes) × (rest : List Bytes) × IsIn lbl lbls × Picks labels rest × (r ≡ rest ++ lbl ∷ [])

module _ {A : Type 0} where
  IsIn-append : (x : A) (xs ys : List A) → IsIn x (xs ++ ys) ↔ (IsIn x xs ⊎ IsIn x ys)
  IsIn-append x [] ys = (λ h. inr h, elim [ inl h ↦ absurd h | inr h ↦ h ])
  IsIn-append x (z ∷ xs) ys =
      let rest = IsIn-append x xs ys in
      (
        elim [
          | inl e ↦ inl (inl e)
          | inr h ↦ elim (rest.0 h) [ inl l ↦ inl (inr l) | inr l ↦ inr l ]
        ],
        elim [
          | inl h ↦ elim h [ inl e ↦ inl e | inr l ↦ inr (rest.1 (inl l)) ]
          | inr l ↦ inr (rest.1 (inr l))
        ],
      )

  IsIn-map :
      {B : Type 0} (f : A → B) (b : B) (xs : List A)
      → IsIn b (map f xs) ↔ ((a : A) × IsIn a xs × (b ≡ f a))
  IsIn-map f b [] = (λ h. absurd h, λ (a, h, e). absurd h)
  IsIn-map f b (x ∷ xs) =
      let rest = IsIn-map f b xs in
      (
        elim [ inl e ↦ (x, inl refl, sym e) | inr h ↦ let (a, m, e) = rest.0 h in (a, inr m, e) ],
        λ (a, h, e). elim h [ inl same ↦ inl (ap f same ∙ sym e) | inr m ↦ inr (rest.1 (a, m, e)) ],
      )

-- What the loop over the labels makes of the lists of the others.
IsIn-append_labels :
    (r : List Bytes) (lbls : List Bytes) (rs : List (List Bytes))
    → IsIn r (append_labels lbls rs) ↔ (
        (lbl : Bytes) × (rest : List Bytes) × IsIn lbl lbls × IsIn rest rs × (r ≡ rest ++ lbl ∷ []))
unfolding append_labels append_label
IsIn-append_labels r [] rs = (λ h. absurd h, λ (lbl, rest, h, m, e). absurd h)
IsIn-append_labels r (l ∷ lbls) rs =
    let one = IsIn-map (λ rlbls. rlbls ++ l ∷ []) r rs in
    let more = IsIn-append_labels r lbls rs in
    let both = IsIn-append r (append_label l rs) (append_labels lbls rs) in
    (
      λ h. elim (both.0 h) [
        | inl here ↦ let (rest, m, e) = one.0 here in (l, rest, inl refl, m, e)
        | inr there ↦ let (lbl, rest, i, m, e) = more.0 there in (lbl, rest, inr i, m, e)
      ],
      λ (lbl, rest, i, m, e). elim i [
        | inl same ↦ both.1 (inl (one.1 (rest, m, e ∙ ap (λ x. rest ++ x ∷ []) (sym same))))
        | inr later ↦ both.1 (inr (more.1 (lbl, rest, later, m, e)))
      ],
    )

-- the number of the lists that the expansion holds
unfoldable pub product : List (List Bytes) → ℕ
product [] = 1
product (lbls ∷ labels) = length lbls * product labels

length-map : {A B : Type 0} (f : A → B) (xs : List A) → length (map f xs) ≡ length xs
length-map f [] = refl
length-map f (x ∷ xs) = omega (arith, length-map f xs)

length-append_labels :
    (lbls : List Bytes) (rs : List (List Bytes))
    → length (append_labels lbls rs) ≡ length lbls * length rs
unfolding append_labels append_label
length-append_labels [] rs = omega arith
length-append_labels (l ∷ lbls) rs =
    let here = length-append (append_label l rs) (append_labels lbls rs) in
    let one = length-map (λ rlbls. rlbls ++ l ∷ []) rs in
    omega (arith, here, one, length-append_labels lbls rs)

-- For one list of labels at least, `argExpander` returns, and what it returns holds a list exactly if that has
-- one label of every list, those of the last one first; the number of the lists is the product of the numbers of
-- labels.
pub arg_expander-Picks :
    (lbls : List Bytes) (labels : List (List Bytes))
    → (out : List (List Bytes)) × (arg_expander (lbls ∷ labels) ≡ ret out)
      × (length out ≡ product (lbls ∷ labels))
      × ((r : List Bytes) → IsIn r out ↔ Picks (lbls ∷ labels) r)
unfolding arg_expander product
arg_expander-Picks lbls [] = (
  map (λ v. v ∷ []) lbls,
  refl,
  omega (arith, length-map (λ v. v ∷ []) lbls),
  λ r. (
    λ h. let (v, m, e) = (IsIn-map (λ v. v ∷ []) r lbls).0 h in (v, [], m, refl, e),
    λ (v, rest, m, e, same). (IsIn-map (λ v. v ∷ []) r lbls).1 (v, m, rw e at same),
  ),
)
arg_expander-Picks [] (more ∷ labels) =
    ([], refl, omega arith, λ r. (λ h. absurd h, λ (lbl, rest, i, p, e). absurd i))
arg_expander-Picks (l ∷ lbls) (more ∷ labels) =
    let (rs, e, n, m) = arg_expander-Picks more labels in
    (
      append_labels (l ∷ lbls) rs,
      rw e refl,
      length-append_labels (l ∷ lbls) rs ∙ ap (λ k. length (l ∷ lbls) * k) n,
      λ r.
          let members = IsIn-append_labels r (l ∷ lbls) rs in
          (
            λ h. let (lbl, rest, i, k, same) = members.0 h in (lbl, rest, i, (m rest).0 k, same),
            λ (lbl, rest, i, k, same). members.1 (lbl, rest, i, (m rest).1 k, same),
          ),
    )
