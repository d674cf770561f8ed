-- ===== src/Trie/Laws.antt =====
-- trie/trie.go: the trie as the map from the path of a key to the last key inserted there.
use silo_pkg.Prelude.{
  ◌≡◌, refl, sym, ap, ◌∙◌, ◌↔◌, ℕ, List, [], ◌∷◌, ◌++◌, Bool, true, false, if◌then◌else◌, Option,
  none, some, inl, inr, ◌⊎◌, fun_ext, false≢true,
}
use mathlib.Core.Option
use mathlib.Core.Path.{subst}
use silo_pkg.Prelude.Bytes.{Bytes, eqb, eqb→eq}
use silo_pkg.Trie.Runes.{runes, runes_of, path}
use silo_pkg.Trie.Tree.{
  Node, node, new_node, get_child, Trie, new_trie, insert, on_child, find_loop, find_node,
  walk_found, prefix_match,
}
use silo_pkg.Trie.Lookup.{
  descend, value_at, key_at, key_at_child, key_at-insert_at, bind-bind, bind_inverse,
}
use silo_pkg.Trie.Walks.{IsMap, Has, Has-walk_iff, insert_at-IsMap, get_child-IsMap, some_injective}

-- The keys inserted one after the other.
abbrev pub insert_all : Trie → List Bytes → Trie
insert_all t [] = t
insert_all t (key ∷ keys) = insert_all (insert t key) keys

or_else : Option Bytes → Option Bytes → Option Bytes
or_else (some a) o = some a
or_else none o = o

-- The last one of the keys that has this path.
unfoldable pub latest : List Bytes → List ℕ → Option Bytes
unfolding or_else
latest [] p = none
latest (key ∷ keys) p = or_else (latest keys p) (if eqb (path key) p then some key else none)

or_else-if :
    (a : Option Bytes) (b : Bool) (key : Bytes) (o : Option Bytes)
    → or_else a (if b then some key else o) ≡ or_else (or_else a (if b then some key else none)) o
unfolding or_else
or_else-if (some a) b key o = refl
or_else-if none true key o = refl
or_else-if none false key o = refl

key_at-insert :
    (t : Trie) (key : Bytes) (p : List ℕ)
    → key_at p (insert t key).root ≡ (if eqb (path key) p then some key else key_at p t.root)
unfolding insert
key_at-insert t key p = key_at-insert_at (path key) key t.root p

key_at-insert_all :
    (keys : List Bytes) (t : Trie) (p : List ℕ)
    → key_at p (insert_all t keys).root ≡ or_else (latest keys p) (key_at p t.root)
unfolding latest
key_at-insert_all [] t p = refl
key_at-insert_all (key ∷ keys) t p =
    key_at-insert_all keys (insert t key) p
    ∙ ap (or_else (latest keys p)) (key_at-insert t key p)
    ∙ or_else-if (latest keys p) (eqb (path key) p) key (key_at p t.root)

insert_all-IsMap : (keys : List Bytes) (t : Trie) → IsMap t.root → IsMap (insert_all t keys).root
unfolding insert
insert_all-IsMap [] t h = h
insert_all-IsMap (key ∷ keys) t h =
    insert_all-IsMap keys (insert t key) (insert_at-IsMap (path key) key t.root h)

empty_key_at : (p : List ℕ) → key_at p new_node ≡ none
unfolding key_at descend value_at new_node get_child Option.bind
empty_key_at [] = refl
empty_key_at (v ∷ p) = refl

or_else-none : (o : Option Bytes) → or_else o none ≡ o
unfolding or_else
or_else-none (some a) = refl
or_else-none none = refl

-- What the tree holds after the keys are inserted in a new trie.
key_at-latest :
    (keys : List Bytes) (p : List ℕ) → key_at p (insert_all new_trie keys).root ≡ latest keys p
unfolding new_trie
key_at-latest keys p =
    key_at-insert_all keys new_trie p
    ∙ ap (or_else (latest keys p)) (empty_key_at p)
    ∙ or_else-none (latest keys p)

one_or_else :
    (o : Option Bytes) (b : Bool) (key x : Bytes)
    → or_else o (if b then some key else none) ≡ some x
    → (o ≡ some x) ⊎ ((b ≡ true) × (key ≡ x))
unfolding or_else
one_or_else (some a) b key x e = inl e
one_or_else none true key x e = inr (refl, cc)
one_or_else none false key x e = cc

-- A key that is the latest of a path has that path.
latest-path : (keys : List Bytes) (p : List ℕ) (x : Bytes) → latest keys p ≡ some x → path x ≡ p
unfolding latest
latest-path [] p x e = cc
latest-path (key ∷ keys) p x e = elim (one_or_else (latest keys p) (eqb (path key) p) key x e) [
  | inl later ↦ latest-path keys p x later
  | inr (same, k) ↦ ap path (sym k) ∙ eqb→eq (path key) p same
]

on_child-found :
    (o : Option Node) (index : ℕ) (go : Node → Option Node × ℕ) (down : Node → Option Node)
    → ((n : Node) → (go n).0 ≡ down n)
    → (on_child o index go).0 ≡ Option.bind o down
unfolding on_child Option.bind
on_child-found none index go down h = refl
on_child-found (some n) index go down h = h n

-- The loop of `findNode` goes down the path of its runes.
found :
    (len : ℕ) (rs : List (ℕ × ℕ)) (index : ℕ) (f : Bool) (n : Node)
    → (find_loop len rs index f n).0 ≡ descend (runes_of rs) n
unfolding find_loop runes_of descend
found len [] index f (node exists value c) = refl
found len ((k, v) ∷ rs) index f (node exists value c) =
    on_child-found (get_child v c) _ _ (descend (runes_of rs)) λ n. found len rs _ _ n

find_node-descend : (t : Trie) (key : Bytes) → (find_node t key).0 ≡ descend (path key) t.root
unfolding find_node path
find_node-descend t key = found _ (runes key) 0 false t.root

key_at_append : (p q : List ℕ) (n : Node) → key_at (p ++ q) n ≡ Option.bind (descend p n) (key_at q)
unfolding descend Option.bind
key_at_append [] q n = refl
key_at_append (v ∷ p) q (node exists value c) =
    key_at_child v (p ++ q) exists value c
    ∙ ap (Option.bind (get_child v c)) (fun_ext λ n. key_at_append p q n)
    ∙ sym (bind-bind (get_child v c) (descend p) (key_at q))

descend-IsMap : (p : List ℕ) (n m : Node) → IsMap n → descend p n ≡ some m → IsMap m
unfolding IsMap descend
descend-IsMap [] n m h e = subst IsMap (some_injective n m e) h
descend-IsMap (v ∷ p) (node exists value c) m h e =
    let (n, below, rest) = bind_inverse (get_child v c) (descend p) m e in
    descend-IsMap p n m (get_child-IsMap v c n h below) rest

-- Under a node that is found, and under none, are the texts at the ends of the paths that go on there.
walk_found_iff :
    (o : Option Node) (x : Bytes)
    → ((n : Node) → o ≡ some n → IsMap n)
    → Has (walk_found o) x ↔ ((q : List ℕ) × (Option.bind o (key_at q) ≡ some x))
unfolding walk_found Option.bind
walk_found_iff none x h = (λ w. absurd (false≢true w), λ (q, e). cc)
walk_found_iff (some n) x h = Has-walk_iff n x (h n refl)

new_trie-IsMap : IsMap new_trie.root
unfolding IsMap new_trie new_node
new_trie-IsMap = tt

held :
    (keys : List Bytes) (p q : List ℕ)
    → Option.bind (descend p (insert_all new_trie keys).root) (key_at q) ≡ latest keys (p ++ q)
held keys p q =
    sym (key_at_append p q (insert_all new_trie keys).root) ∙ key_at-latest keys (p ++ q)

-- After any keys are inserted in a new trie, `PrefixMatch` returns a text exactly if it is the last key
-- inserted of those that spell the same runes and these runes start with those of the prefix.
pub Has-prefix_match_iff :
    (keys : List Bytes) (prefix x : Bytes)
    → Has (prefix_match (insert_all new_trie keys) prefix) x
      ↔ ((latest keys (path x) ≡ some x) × ((q : List ℕ) × (path x ≡ path prefix ++ q)))
unfolding prefix_match
Has-prefix_match_iff keys prefix x =
    let t = insert_all new_trie keys in
    let under = walk_found_iff (descend (path prefix) t.root) x (λ n e.
      descend-IsMap (path prefix) t.root n (insert_all-IsMap keys new_trie new_trie-IsMap) e) in
    rw (find_node-descend t prefix) (
      λ w.
          let (q, e) = under.0 w in
          let at = sym (held keys (path prefix) q) ∙ e in
          let same = latest-path keys (path prefix ++ q) x at in (rw same at, (q, same)),
      λ (e, (q, same)). under.1 (q, held keys (path prefix) q ∙ rw (← same) e),
    )
