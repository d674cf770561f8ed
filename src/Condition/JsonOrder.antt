-- ===== src/Condition/JsonOrder.antt =====
-- policy/condition/func.go: the loop of UnmarshalJSON over a map, whose entries come in any order.
use silo_pkg.Prelude.{◌≡◌, refl, sym, ◌∙◌, List, ◌∷◌, ◌++◌, append_assoc, Option, none, some}
use mathlib.Core.Option
use mathlib.Core.List.{Permᴰ}
use mathlib.Core.List.Permᴰ
use silo_pkg.Prelude.Bytes.{Bytes}
use silo_pkg.Condition.Name.{parse_name}
use silo_pkg.Condition.StringSets.{StringSets}
use silo_pkg.Condition.Library.{Library}
use silo_pkg.Condition.Concrete.{Concrete}
use silo_pkg.Condition.Json.{KeyArgs, Nested, build_args, build_all}

-- Two results, one behind the other, if both are there.
both {ℓ} : {A : Type ℓ} → Option (List A) → Option (List A) → Option (List A)
both none y = none
both (some a) none = none
both (some a) (some b) = some (a ++ b)

both-some {ℓ} :
    {A : Type ℓ} (x y : Option (List A)) (l : List A)
    → both x y ≡ some l
    → (a : List A) × (b : List A) × (x ≡ some a) × (y ≡ some b) × (a ++ b ≡ l)
unfolding both
both-some none y l e = cc
both-some (some a) none l e = cc
both-some (some a) (some b) l e = (a, b, refl, refl, cc)

bind-both {ℓ κ} :
    {A : Type ℓ} {B : Type κ} (x : Option A) (f : A → Option (List B)) (y : Option (List B))
    → Option.bind x (λ n. Option.bind (f n) (λ a. Option.bind y (λ b. some (a ++ b))))
      ≡ both (Option.bind x f) y
unfolding both Option.bind
bind-both {B = B} none f y = refl
bind-both {B = B} (some n) f y = go (f n) y
  where
    go :
        (u v : Option (List B)) → Option.bind u (λ a. Option.bind v (λ b. some (a ++ b))) ≡ both u v
    go none v = refl
    go (some a) none = refl
    go (some a) (some b) = refl

module _ (S : StringSets) (L : Library) where
  -- what one entry of the outer map is built into
  entry_built : Bytes × KeyArgs → Option (List (Concrete S L))
  entry_built (name_text, args) = Option.bind (parse_name name_text) (λ n. build_args S L n args)

  build_all-cons :
      (e : Bytes × KeyArgs) (nm : Nested)
      → build_all S L (e ∷ nm) ≡ both (entry_built e) (build_all S L nm)
  unfolding build_all entry_built
  build_all-cons (t, args) nm =
      bind-both (parse_name t) (λ n. build_args S L n args) (build_all S L nm)

  -- The same result but for the order of the functions.
  abbrev pub Rearranged : Nested → List (Concrete S L) → Type 0
  Rearranged nm functions =
      (found : List (Concrete S L)) × (build_all S L nm ≡ some found) × Permᴰ functions found

  front_comm : (a b c : List (Concrete S L)) → Permᴰ (a ++ (b ++ c)) (b ++ (a ++ c))
  front_comm a b c =
      rw (sym (append_assoc a b c), sym (append_assoc b a c))
        (Permᴰ.append_right c (Permᴰ.append_comm a b))

  same_entry :
      (e e' : Bytes × KeyArgs) (nm nm' : Nested) (functions : List (Concrete S L))
      → e ≡ e'
      → ((l : List (Concrete S L)) → build_all S L nm ≡ some l → Rearranged nm' l)
      → build_all S L (e ∷ nm) ≡ some functions
      → Rearranged (e' ∷ nm') functions
  unfolding both
  same_entry e e' nm nm' functions same rest h =
      let (a, b, one, more, all) = both-some _ _ functions (rw build_all-cons at h) in
      let (found, built, order) = rest b more in
      (
        a ++ found,
        build_all-cons e' nm' ∙ rw (← same, one, built) refl,
        rw (← all) (Permᴰ.append_left a order),
      )

  swapped_entries :
      (e d e' d' : Bytes × KeyArgs) (nm : Nested) (functions : List (Concrete S L))
      → e ≡ d'
      → d ≡ e'
      → build_all S L (e ∷ d ∷ nm) ≡ some functions
      → Rearranged (e' ∷ d' ∷ nm) functions
  unfolding both
  swapped_entries e d e' d' nm functions first second h =
      let (a, bc, one, more, all) = both-some _ _ functions (sym (build_all-cons e (d ∷ nm)) ∙ h) in
      let (b, c, two, rest, tail) = both-some _ _ bc (sym (build_all-cons d nm) ∙ more) in
      (
        b ++ (a ++ c),
        build_all-cons e' (d' ∷ nm)
            ∙ rw (build_all-cons d' nm, ← first, ← second, one, two, rest) refl,
        rw (← all, ← tail) (front_comm a b c),
      )

  -- The order in which the loop over the outer map meets its entries changes no more than the order of
  -- the functions that are built.
  pub build_all-Permᴰ :
      {nm nm' : Nested} (functions : List (Concrete S L))
      → Permᴰ nm nm'
      → build_all S L nm ≡ some functions
      → Rearranged nm' functions
  build_all-Permᴰ functions Permᴰ.nil h = (functions, h, Permᴰ.refl functions)
  build_all-Permᴰ functions (Permᴰ.cons {a = e} {b = e'} {l₁ = nm} {l₂ = nm'} same d) h =
      same_entry e e' nm nm' functions same (λ l k. build_all-Permᴰ l d k) h
  build_all-Permᴰ functions (Permᴰ.swap {a = e} {b = d} {a' = e'} {b' = d'} {l = nm} p q) h =
      swapped_entries e d e' d' nm functions p q h
  build_all-Permᴰ functions (Permᴰ.trans d₁ d₂) h =
      let (found, built, order) = build_all-Permᴰ functions d₁ h in
      let (found', built', order') = build_all-Permᴰ found d₂ built in
      (found', built', Permᴰ.trans order order')
