-- ===== src/Trie/Walks.antt =====
-- trie/trie.go: what a walk over the tree returns.
use silo_pkg.Prelude.{
  ◌≡◌, refl, sym, ap, ◌∙◌, ◌↔◌, ℕ, List, [], ◌∷◌, ◌++◌, Bool, true, false, ◌||◌, ◌==◌, Option, none,
  some, Bool-cases, inl, inr, arith, any, ==_iff, ==_refl, ◌⊎◌, false≢true,
}
use mathlib.Core.Option
use mathlib.Core.Path.{subst}
use silo_pkg.Prelude.Bytes.{Bytes, eqb, eqb→eq, eqb_refl}
use silo_pkg.Trie.Tree.{
  Node, node, Children, no_child, child, new_node, get_child, put_child, child_or_new, insert_at,
  walk, walk_children,
}
use silo_pkg.Trie.Lookup.{
  descend, value_at, key_at, key_at_child, bind_inverse, get_child-put_child,
}

-- Every node has at most one child for a rune, as a Go map has.
unfoldable mutual
  pub IsMap : Node → Type 0
  IsMap (node exists value c) = AreMaps c

  pub AreMaps : Children → Type 0
  AreMaps no_child = Unit {0}
  AreMaps (child v n c) = IsMap n × (get_child v c ≡ none) × AreMaps c

-- x is one of the texts.
abbrev pub Has : List Bytes → Bytes → Type 0
Has xs x = any (λ y. eqb y x) xs ≡ true

Has-append :
    (xs ys : List Bytes) (x : Bytes)
    → any (λ y. eqb y x) (xs ++ ys) ≡ (any (λ y. eqb y x) xs || any (λ y. eqb y x) ys)
Has-append [] ys x = refl
Has-append (z ∷ xs) ys x = rw (Has-append xs ys x) (ground arith)

==_comm : (a b : ℕ) → (a == b) ≡ (b == a)
==_comm a b = ground arith

put_child-AreMaps :
    (v : ℕ) (n : Node) (c : Children) → IsMap n → AreMaps c → AreMaps (put_child v n c)
unfolding IsMap put_child get_child
put_child-AreMaps v n no_child m h = (m, refl, tt)
put_child-AreMaps v n (child w k c) m (mk, fresh, h) = elim (Bool-cases (w == v)) [
  | inl same ↦ rw same (m, fresh, h)
  | inr other ↦
      let still = get_child-put_child w v n c ∙ rw (==_comm v w, other) fresh in
      rw other (mk, still, put_child-AreMaps v n c m h)
]

pub some_injective : (a b : Node) → ◌≡◌ {A = Option Node} (some a) (some b) → a ≡ b
some_injective a b e = cc

none-some : (n : Node) → ◌≡◌ {A = Option Node} none (some n) → ⊥
none-some n e = cc

pub get_child-IsMap :
    (v : ℕ) (c : Children) (n : Node) → AreMaps c → get_child v c ≡ some n → IsMap n
unfolding IsMap get_child
get_child-IsMap v no_child n h e = cc
get_child-IsMap v (child w m c) n (mm, fresh, h) e = elim (Bool-cases (w == v)) [
  | inl same ↦ subst IsMap (some_injective m n (rw same at e)) mm
  | inr other ↦ get_child-IsMap v c n h (rw other at e)
]

child_or_new-IsMap : (v : ℕ) (c : Children) → AreMaps c → IsMap (child_or_new (get_child v c))
unfolding IsMap get_child child_or_new new_node
child_or_new-IsMap v no_child h = tt
child_or_new-IsMap v (child w m c) (mm, fresh, h) = elim (Bool-cases (w == v)) [
  | inl same ↦ rw same mm
  | inr other ↦ rw other (child_or_new-IsMap v c h)
]

-- `Insert` keeps the children maps.
pub insert_at-IsMap : (q : List ℕ) (key : Bytes) (n : Node) → IsMap n → IsMap (insert_at q key n).0
unfolding IsMap insert_at
insert_at-IsMap [] key (node exists value c) h = h
insert_at-IsMap (v ∷ q) key (node exists value c) h =
    put_child-AreMaps v _ c
      (insert_at-IsMap q key (child_or_new (get_child v c)) (child_or_new-IsMap v c h)) h

-- A text that the children's walks return is at the end of a path of one of them, and the other way round.
BelowOne : Children → Bytes → Type 0
BelowOne c x =
    (v : ℕ) × (n : Node) × (p : List ℕ) × (get_child v c ≡ some n) × (key_at p n ≡ some x)

one_child :
    (w : ℕ) (m : Node) (c : Children) (x : Bytes)
    → get_child w c ≡ none
    → BelowOne (child w m c) x
    → ((p : List ℕ) × (key_at p m ≡ some x)) ⊎ BelowOne c x
unfolding BelowOne get_child
one_child w m c x fresh (v, n, p, e, l) = elim (Bool-cases (w == v)) [
  | inl same ↦ let equal : m ≡ n = some_injective m n (rw same at e) in inl (p, rw equal l)
  | inr other ↦ inr (v, n, p, rw other at e, l)
]

first_child :
    (w : ℕ) (m : Node) (c : Children) (x : Bytes) (p : List ℕ)
    → key_at p m ≡ some x
    → BelowOne (child w m c) x
unfolding BelowOne get_child
first_child w m c x p l = (w, m, p, rw (==_refl w) refl, l)

later_child :
    (w : ℕ) (m : Node) (c : Children) (x : Bytes)
    → get_child w c ≡ none
    → BelowOne c x
    → BelowOne (child w m c) x
unfolding BelowOne get_child
later_child w m c x fresh (v, n, p, e, l) = elim (Bool-cases (w == v)) [
  | inl same ↦
      let there : get_child w c ≡ some n = rw ((==_iff w v).0 same) e in
      absurd (none-some n (sym fresh ∙ there))
  | inr other ↦ (v, n, p, rw other e, l)
]

key_at_here :
    (exists : Bool) (value : Bytes) (c : Children) (x : Bytes)
    → (key_at [] (node exists value c) ≡ some x) ↔ ((exists ≡ true) × (value ≡ x))
unfolding key_at descend value_at Option.bind
key_at_here true value c x = (λ e. (refl, cc), λ (t, e). ap some e)
key_at_here false value c x = (λ e. cc, λ (t, e). cc)

bind_found :
    (o : Option Node) (n : Node) (p : List ℕ) → o ≡ some n → Option.bind o (key_at p) ≡ key_at p n
unfolding Option.bind
bind_found none n p e = cc
bind_found (some m) n p e = ap (key_at p) (some_injective m n e)

-- The text at the end of some path.
abbrev pub Holds : Node → Bytes → Type 0
Holds n x = (p : List ℕ) × (key_at p n ≡ some x)

Holds-one :
    (exists : Bool) (value : Bytes) (c : Children) (x : Bytes) (p : List ℕ)
    → key_at p (node exists value c) ≡ some x
    → ((exists ≡ true) × (value ≡ x)) ⊎ BelowOne c x
unfolding BelowOne
Holds-one exists value c x [] l = inl ((key_at_here exists value c x).0 l)
Holds-one exists value c x (v ∷ p) l =
    let (n, e, b) =
      bind_inverse (get_child v c) (key_at p) x (sym (key_at_child v p exists value c) ∙ l) in
    inr (v, n, p, e, b)

Holds-iff :
    (exists : Bool) (value : Bytes) (c : Children) (x : Bytes)
    → Holds (node exists value c) x ↔ (((exists ≡ true) × (value ≡ x)) ⊎ BelowOne c x)
unfolding BelowOne
Holds-iff exists value c x = (
  λ (p, l). Holds-one exists value c x p l,
  elim [
    | inl h ↦ ([], (key_at_here exists value c x).1 h)
    | inr (v, n, p, e, l) ↦
        (v ∷ p, key_at_child v p exists value c ∙ bind_found (get_child v c) n p e ∙ l)
  ],
)

Has-walk :
    (exists : Bool) (value : Bytes) (c : Children) (x : Bytes)
    → Has (walk (node exists value c)) x
      ↔ (((exists ≡ true) × (value ≡ x)) ⊎ Has (walk_children c) x)
unfolding walk
Has-walk true value c x = (
  λ h. elim (Bool-cases (eqb value x)) [
    | inl same ↦ inl (refl, eqb→eq value x same)
    | inr other ↦ inr (ground arith)
  ],
  elim [ inl (t, e) ↦ rw e (ground (arith, eqb_refl x)) | inr h ↦ ground arith ],
)
Has-walk false value c x = (λ h. inr h, elim [ inl (t, e) ↦ cc | inr h ↦ h ])

or_right : (a b c : Bool) → c ≡ (a || b) → c ≡ true → a ≡ false → b ≡ true
or_right a b c e h n = ground arith

in_first : (a b c : Bool) → c ≡ (a || b) → a ≡ true → c ≡ true
in_first a b c e h = ground arith

in_later : (a b c : Bool) → c ≡ (a || b) → b ≡ true → c ≡ true
in_later a b c e h = ground arith

-- A walk returns the texts at the ends of the paths below its node, and nothing else.
mutual
  unfolding IsMap walk BelowOne get_child

  pub Has-walk_iff : (n : Node) (x : Bytes) → IsMap n → Has (walk n) x ↔ Holds n x
  Has-walk_iff (node exists value c) x h =
      let below = Has-walk_children_iff c x h in
      let here = Has-walk exists value c x in
      let all = Holds-iff exists value c x in
      (
        λ w. elim (here.0 w) [ inl e ↦ all.1 (inl e) | inr b ↦ all.1 (inr (below.0 b)) ],
        λ l. elim (all.0 l) [ inl e ↦ here.1 (inl e) | inr b ↦ here.1 (inr (below.1 b)) ],
      )

  Has-walk_children_iff :
      (c : Children) (x : Bytes) → AreMaps c → Has (walk_children c) x ↔ BelowOne c x
  Has-walk_children_iff no_child x h =
      (λ w. absurd (false≢true w), λ (v, n, p, e, l). absurd (none-some n e))
  Has-walk_children_iff (child v n c) x (m, fresh, h) =
      let first = Has-walk_iff n x m in
      let later = Has-walk_children_iff c x h in
      let both = Has-append (walk n) (walk_children c) x in
      (
        λ w. elim (Bool-cases (any (λ y. eqb y x) (walk n))) [
          | inl here ↦ let (p, l) = first.0 here in first_child v n c x p l
          | inr other ↦ later_child v n c x fresh (later.0 (or_right _ _ _ both w other))
        ],
        λ b. elim (one_child v n c x fresh b) [
          | inl l ↦ in_first _ _ _ both (first.1 l)
          | inr l ↦ in_later _ _ _ both (later.1 l)
        ],
      )
