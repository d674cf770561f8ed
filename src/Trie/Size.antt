-- ===== src/Trie/Size.antt =====
-- trie/trie.go: the counter of the trie and the keys that a walk returns.
use silo_pkg.Prelude.{
  ◌≡◌, refl, ◌∙◌, ℕ, ◌+◌, List, [], ◌∷◌, Bool, true, false, if◌then◌else◌, ◌==◌, Bool-cases, inl,
  inr, arith, length, length-append,
}
use silo_pkg.Prelude.Bytes.{Bytes}
use silo_pkg.Trie.Runes.{path}
use silo_pkg.Trie.Tree.{
  Node, node, Children, no_child, child, new_node, get_child, put_child, child_or_new, insert_at,
  Trie, new_trie, insert, walk, walk_children,
}
use silo_pkg.Trie.Laws.{insert_all}

-- A child that is put in counts instead of the one that was there.
length-put_child :
    (v : ℕ) (n : Node) (c : Children)
    → length (walk_children (put_child v n c)) + length (walk (child_or_new (get_child v c)))
      ≡ length (walk_children c) + length (walk n)
unfolding walk put_child get_child child_or_new new_node
length-put_child v n no_child = omega (arith, length-append (walk n) [])
length-put_child v n (child w m c) = elim (Bool-cases (w == v)) [
  | inl same ↦
      rw same omega
        (arith, length-append (walk n) (walk_children c), length-append (walk m) (walk_children c))
  | inr other ↦ rw other omega (
    arith,
    length-append (walk m) (walk_children (put_child v n c)),
    length-append (walk m) (walk_children c),
    length-put_child v n c,
  )
]

abbrev one_if : Bool → ℕ
one_if b = if b then 1 else 0

length-if :
    (exists : Bool) (value : Bytes) (xs : List Bytes)
    → length (if exists then value ∷ xs else xs) ≡ length xs + one_if exists
length-if true value xs = omega arith
length-if false value xs = omega arith

length-insert_at :
    (q : List ℕ) (key : Bytes) (n : Node)
    → length (walk (insert_at q key n).0) ≡ length (walk n) + one_if (insert_at q key n).1
unfolding insert_at walk
length-insert_at [] key (node true value c) = omega arith
length-insert_at [] key (node false value c) = omega arith
length-insert_at (v ∷ q) key (node exists value c) =
    let old = child_or_new (get_child v c) in
    let behind = length-insert_at q key old in
    let put = length-put_child v (insert_at q key old).0 c in
    let after = length-if exists value (walk_children (put_child v (insert_at q key old).0 c)) in
    let before = length-if exists value (walk_children c) in
    omega (arith, after, before, behind, put)

-- The counter of a trie is the number of keys that a walk from its root returns.
abbrev pub IsCounted : Trie → Type 0
IsCounted t = t.size ≡ length (walk t.root)

size_if : (added : Bool) (s : ℕ) → (if added then s + 1 else s) ≡ s + one_if added
size_if true s = refl
size_if false s = omega arith

-- `Insert` keeps the counter `size` at the number of keys that a walk from the root returns.
pub insert-IsCounted : (t : Trie) (key : Bytes) → IsCounted t → IsCounted (insert t key)
unfolding insert
insert-IsCounted t key h =
    let walked = length-insert_at (path key) key t.root in
    size_if (insert_at (path key) key t.root).1 t.size ∙ omega (arith, h, walked)

insert_all-IsCounted : (keys : List Bytes) (t : Trie) → IsCounted t → IsCounted (insert_all t keys)
insert_all-IsCounted [] t h = h
insert_all-IsCounted (key ∷ keys) t h =
    insert_all-IsCounted keys (insert t key) (insert-IsCounted t key h)

-- Whatever keys are inserted in a new trie, `size` is the number of keys that a walk from the root returns.
pub size-insert_all : (keys : List Bytes) → IsCounted (insert_all new_trie keys)
unfolding new_trie new_node walk
size-insert_all keys = insert_all-IsCounted keys new_trie refl
