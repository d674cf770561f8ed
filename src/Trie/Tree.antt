-- ===== src/Trie/Tree.antt =====
-- trie/trie.go: the nodes of the tree and the operations on it. The map of a node's children is the list
-- of its entries; a loop over the map meets them in that order. No two nodes share a child.
use silo_pkg.Prelude.{
  ℕ, ◌+◌, List, [], ◌∷◌, ◌++◌, Bool, true, false, not, ◌==◌, if◌then◌else◌, Option, none, some,
  length,
}
use silo_pkg.Prelude.Bytes.{Bytes}
use silo_pkg.Trie.Runes.{runes, path}

-- `Node`: whether the key exists, its value and the children, by their runes
mutual
  pub data Node : Type 0 where
    node : Bool → Bytes → Children → Node

  pub data Children : Type 0 where
    no_child : Children
    child : ℕ → Node → Children → Children

-- `newNode`
unfoldable pub new_node : Node
new_node = node false [] no_child

-- `child[v]`
unfoldable pub get_child : ℕ → Children → Option Node
get_child v no_child = none
get_child v (child w n c) = if w == v then some n else get_child v c

-- `child[v] = n`
unfoldable pub put_child : ℕ → Node → Children → Children
put_child v n no_child = child v n no_child
put_child v n (child w m c) = if w == v then child w n c else child w m (put_child v n c)

unfoldable pub child_or_new : Option Node → Node
unfolding new_node
child_or_new none = new_node
child_or_new (some n) = n

-- the loop of `Insert`, and what it does at the last node; whether `size` is incremented
unfoldable pub insert_at : List ℕ → Bytes → Node → Node × Bool
unfolding get_child put_child child_or_new
insert_at [] key (node exists value c) = (node true key c, not exists)
insert_at (v ∷ rest) key (node exists value c) =
    let (n, added) = insert_at rest key (child_or_new (get_child v c)) in
    (node exists value (put_child v n c), added)

-- `Trie`
pub record Trie : Type 0 where
  pub root : Node
  pub size : ℕ

-- `NewTrie`
unfoldable pub new_trie : Trie
unfolding new_node
new_trie = record { root = new_node; size = 0 }

-- `Trie.Insert`
unfoldable pub insert : Trie → Bytes → Trie
unfolding insert_at path
insert t key =
    let (root, added) = insert_at (path key) key t.root in
    record { root = root; size = if added then t.size + 1 else t.size }

-- `Trie.Walk`
unfoldable mutual
  pub walk : Node → List Bytes
  walk (node exists value c) = let rest = walk_children c in if exists then value ∷ rest else rest

  pub walk_children : Children → List Bytes
  walk_children no_child = []
  walk_children (child v n c) = walk n ++ walk_children c

node_exists : Node → Bool
node_exists (node exists value c) = exists

-- one round of the loop, which returns if there is no such child
unfoldable pub on_child : Option Node → ℕ → (Node → Option Node × ℕ) → Option Node × ℕ
on_child none index go = (none, index)
on_child (some n) index go = go n

-- the loop of `findNode`, with the length of the key, the index found and the flag f
unfoldable pub find_loop : ℕ → List (ℕ × ℕ) → ℕ → Bool → Node → Option Node × ℕ
unfolding get_child node_exists on_child
find_loop len [] index f (node exists value c) =
    (some (node exists value c), if exists then len else index)
find_loop len ((k, v) ∷ rest) index f (node exists value c) =
    let index = if f then k else index in
    on_child (get_child v c) index λ n. find_loop len rest index (node_exists n) n

-- `Trie.findNode`
unfoldable pub find_node : Trie → Bytes → Option Node × ℕ
unfolding find_loop runes
find_node t key = find_loop (length key) (runes key) 0 false t.root

unfoldable pub walk_found : Option Node → List Bytes
unfolding walk
walk_found none = []
walk_found (some n) = walk n

-- `Trie.PrefixMatch`
unfoldable pub prefix_match : Trie → Bytes → List Bytes
unfolding find_node walk_found
prefix_match t key = walk_found (find_node t key).0
