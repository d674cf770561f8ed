-- ===== src/Trie/Examples.antt =====
-- trie/trie.go: the theorems at concrete keys.
use silo_pkg.Prelude.{◌≡◌, refl, ◌↔◌, ℕ, List, [], ◌∷◌, ◌++◌, some}
use silo_pkg.Prelude.Bytes.{Bytes, codes}
use silo_pkg.Trie.Runes.{path}
use silo_pkg.Trie.Tree.{new_trie, insert, find_node, prefix_match}
use silo_pkg.Trie.Walks.{Has}
use silo_pkg.Trie.Laws.{insert_all, latest, Has-prefix_match_iff}
use silo_pkg.Trie.Size.{IsCounted, size-insert_all}

abbrev words : List Bytes
words = codes "alias" ∷ codes "admin" ∷ codes "al" ∷ codes "alias" ∷ codes "cat" ∷ []

matched : prefix_match (insert_all new_trie words) (codes "al") ≡ codes "al" ∷ codes "alias" ∷ []
unfolding prefix_match insert new_trie
matched = refl

-- the index behind the longest key on the way
index_found : (find_node (insert_all new_trie words) (codes "alia")).1 ≡ 2
unfolding find_node insert new_trie
index_found = refl

four_keys : (insert_all new_trie words).size ≡ 4
unfolding insert new_trie
four_keys = refl

Has-prefix_match_iff_example :
    Has (prefix_match (insert_all new_trie words) (codes "al")) (codes "alias") ↔ (
      (latest words (path (codes "alias")) ≡ some (codes "alias"))
      × ((q : List ℕ) × (path (codes "alias") ≡ path (codes "al") ++ q)))
Has-prefix_match_iff_example = Has-prefix_match_iff words (codes "al") (codes "alias")

size-insert_all_example : IsCounted (insert_all new_trie words)
size-insert_all_example = size-insert_all words
