-- ===== src/Trie.antt =====
-- trie: the tree of keys, by their runes.
pub mod Runes
pub mod Tree
pub mod Lookup
pub mod Walks
pub mod Laws
pub mod Size
mod Examples
