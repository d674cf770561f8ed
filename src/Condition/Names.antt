-- ===== src/Condition/Names.antt =====
-- policy/condition/keyname.go: the condition keys and the lists of supported keys.
pub mod Keys
pub mod Lists
