-- ===== src/Trie/Lookup.antt =====
-- trie/trie.go: the tree as a map from paths to keys.
use silo_pkg.Prelude.{
  ◌≡◌, refl, ap, ◌∙◌, ℕ, List, [], ◌∷◌, Bool, true, ◌==◌, if◌then◌else◌, Option, none, some,
  Bool-cases, inl, inr, arith, ==_iff,
}
use mathlib.Core.Option
use silo_pkg.Prelude.Bytes.{Bytes, eqb}
use silo_pkg.Trie.Tree.{
  Node, node, Children, no_child, child, new_node, get_child, put_child, child_or_new, insert_at,
}

-- The node at the end of a path.
unfoldable pub descend : List ℕ → Node → Option Node
unfolding get_child Option.bind
descend [] n = some n
descend (v ∷ path) (node exists value c) = Option.bind (get_child v c) (descend path)

unfoldable pub value_at : Node → Option Bytes
value_at (node exists value c) = if exists then some value else none

-- The key at the end of a path.
unfoldable pub key_at : List ℕ → Node → Option Bytes
unfolding descend value_at Option.bind
key_at path n = Option.bind (descend path n) value_at

pub get_child-put_child :
    (w v : ℕ) (n : Node) (c : Children)
    → get_child w (put_child v n c) ≡ (if v == w then some n else get_child w c)
unfolding get_child put_child
get_child-put_child w v n no_child = refl
get_child-put_child w v n (child u m c) = elim (Bool-cases (u == v)) [
  | inl same ↦ rw same (ground (arith))
  | inr other ↦ rw (other, get_child-put_child w v n c) (ground (arith))
]

pub bind-bind :
    {A B C : Type 0} (o : Option A) (f : A → Option B) (g : B → Option C)
    → Option.bind (Option.bind o f) g ≡ Option.bind o (λ a. Option.bind (f a) g)
unfolding Option.bind
bind-bind none f g = refl
bind-bind (some a) f g = refl

-- What a chain that gives a result went through.
pub bind_inverse :
    {A B : Type 0} (o : Option A) (f : A → Option B) (b : B)
    → Option.bind o f ≡ some b
    → (a : A) × (o ≡ some a) × (f a ≡ some b)
unfolding Option.bind
bind_inverse none f b e = cc
bind_inverse (some a) f b e = (a, refl, e)

pub key_at_child :
    (v : ℕ) (p : List ℕ) (exists : Bool) (value : Bytes) (c : Children)
    → key_at (v ∷ p) (node exists value c) ≡ Option.bind (get_child v c) (key_at p)
unfolding key_at descend
key_at_child v p exists value c = bind-bind (get_child v c) (descend p) value_at

key_at_or_new :
    (p : List ℕ) (o : Option Node) → key_at p (child_or_new o) ≡ Option.bind o (key_at p)
unfolding key_at descend value_at child_or_new new_node get_child Option.bind
key_at_or_new [] none = refl
key_at_or_new (v ∷ p) none = refl
key_at_or_new p (some n) = refl

key_at_here :
    (exists : Bool) (value : Bytes) (c d : Children)
    → key_at [] (node exists value c) ≡ key_at [] (node exists value d)
unfolding key_at descend value_at Option.bind
key_at_here exists value c d = refl

key_at_set : (key : Bytes) (c : Children) → key_at [] (node true key c) ≡ some key
unfolding key_at descend value_at Option.bind
key_at_set key c = refl

key_at_below :
    (w : ℕ) (p : List ℕ) (exists : Bool) (value key : Bytes) (c : Children)
    → key_at (w ∷ p) (node true key c) ≡ key_at (w ∷ p) (node exists value c)
unfolding key_at descend
key_at_below w p exists value key c = refl

bind_some : (n : Node) (p : List ℕ) → Option.bind (some n) (key_at p) ≡ key_at p n
unfolding Option.bind
bind_some n p = refl

-- The node that `Insert` leaves: the key is at the end of its path, and what is at the end of the other
-- paths is what was there.
pub key_at-insert_at :
    (q : List ℕ) (key : Bytes) (n : Node) (p : List ℕ)
    → key_at p (insert_at q key n).0 ≡ (if eqb q p then some key else key_at p n)
unfolding insert_at eqb
key_at-insert_at [] key (node exists value c) [] = key_at_set key c
key_at-insert_at [] key (node exists value c) (w ∷ p) = key_at_below w p exists value key c
key_at-insert_at (v ∷ q) key (node exists value c) [] = key_at_here exists value _ c
key_at-insert_at (v ∷ q) key (node exists value c) (w ∷ p) =
    let m = (insert_at q key (child_or_new (get_child v c))).0 in
    let below =
      key_at_child w p exists value (put_child v m c)
      ∙ ap (λ o. Option.bind o (key_at p)) (get_child-put_child w v m c) in
    let before = key_at_child w p exists value c in
    elim (Bool-cases (v == w)) [
      | inl same ↦
          let behind = key_at-insert_at q key (child_or_new (get_child v c)) p in
          let old = key_at_or_new p (get_child v c) in
          let equal = (==_iff v w).0 same in
          rw (below, before, same, bind_some m p, behind, old, equal) refl
      | inr other ↦ rw (below, before, other) refl
    ]
