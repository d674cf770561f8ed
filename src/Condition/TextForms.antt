-- ===== src/Condition/TextForms.antt =====
-- policy/condition/name.go and key.go: names and keys are read again from their texts.
use silo_pkg.Prelude.{
  ◌≡◌, refl, List, [], ◌∷◌, ◌++◌, Bool, true, false, not, some, Bool-cases, inl, inr, All, all,
  false≢true, &&_split, ◌⊎◌, ◌==◌, arith,
}
use mathlib.Core.Path.{subst}
use silo_pkg.Prelude.Bytes.{Bytes, eqb, eqb→eq, contains_byte}
use silo_pkg.Condition.Names.Lists.{all_supported_keys}
use silo_pkg.Condition.Values.{has_key, before_byte, from_byte}
use silo_pkg.Condition.Keys.{Key, key_is_valid, key_string, parse_key, split_key}
use silo_pkg.Condition.Name.{
  Name, names, qualifiers, for_all_values, for_any_value, name_string, name_is_valid, parse_name,
}

-- What holds of every key of a map holds of a key that the map has.
has_key-All : (P : Bytes → Type 0) (m : List Bytes) (k : Bytes) → All P m → has_key m k ≡ true → P k
unfolding has_key
has_key-All P [] k h e = cc
has_key-All P (j ∷ m) k h e = elim (Bool-cases (eqb j k)) [
  | inl same ↦ subst P (eqb→eq j k same) h.0
  | inr other ↦ has_key-All P m k h.1 (rw other at e)
]

-- A name behind no qualifier, and behind each of them, is read as what it is.
abbrev Reads : Bytes → Type 0
Reads x =
    (parse_name x ≡ some (record { qualifier = []; name = x }))
    × (parse_name (for_all_values ++ b':' ∷ x)
        ≡ some (record { qualifier = for_all_values; name = x }))
    × (parse_name (for_any_value ++ b':' ∷ x)
        ≡ some (record { qualifier = for_any_value; name = x }))

names_read : All Reads names
unfolding names parse_name
names_read = (
  (refl, refl, refl),
  (
    (refl, refl, refl),
    (
      (refl, refl, refl),
      (
        (refl, refl, refl),
        (
          (refl, refl, refl),
          (
            (refl, refl, refl),
            (
              (refl, refl, refl),
              (
                (refl, refl, refl),
                (
                  (refl, refl, refl),
                  (
                    (refl, refl, refl),
                    (
                      (refl, refl, refl),
                      (
                        (refl, refl, refl),
                        (
                          (refl, refl, refl),
                          (
                            (refl, refl, refl),
                            (
                              (refl, refl, refl),
                              (
                                (refl, refl, refl),
                                (
                                  (refl, refl, refl),
                                  (
                                    (refl, refl, refl),
                                    (
                                      (refl, refl, refl),
                                      (
                                        (refl, refl, refl),
                                        (
                                          (refl, refl, refl),
                                          (
                                            (refl, refl, refl),
                                            ((refl, refl, refl), ((refl, refl, refl), tt)),
                                          ),
                                        ),
                                      ),
                                    ),
                                  ),
                                ),
                              ),
                            ),
                          ),
                        ),
                      ),
                    ),
                  ),
                ),
              ),
            ),
          ),
        ),
      ),
    ),
  ),
)

name_cases :
    (q x : Bytes)
    → name_is_valid (record { qualifier = q; name = x }) ≡ true
    → (has_key names x ≡ true) × ((q ≡ []) ⊎ (has_key qualifiers q ≡ true))
unfolding name_is_valid
name_cases [] x h = (h, inl refl)
name_cases (c ∷ q) x h = elim (Bool-cases (has_key qualifiers (c ∷ q))) [
  | inl found ↦ (rw found at h, inr found)
  | inr missing ↦ absurd (false≢true (rw missing at h))
]

read_again :
    (q x : Bytes)
    → Reads x
    → (q ≡ []) ⊎ (has_key qualifiers q ≡ true)
    → parse_name (name_string (record { qualifier = q; name = x }))
      ≡ some (record { qualifier = q; name = x })
unfolding name_string qualifiers
read_again [] x (plain, every, some_one) h = plain
read_again (c ∷ q) x (plain, every, some_one) (inl e) = cc
read_again (c ∷ q) x (plain, every, some_one) (inr found) =
    has_key-All (λ k. parse_name (k ++ b':' ∷ x) ≡ some (record { qualifier = k; name = x }))
      qualifiers (c ∷ q) (every, (some_one, tt)) found

-- The text of a valid name of a condition function is read as that name.
pub parse_name-name_string :
    (n : Name) → name_is_valid n ≡ true → parse_name (name_string n) ≡ some n
parse_name-name_string n h =
    let (found, q) = name_cases n.qualifier n.name h in
    read_again n.qualifier n.name (has_key-All Reads names n.name names_read found) q

-- A name of a key that holds no slash.
abbrev Whole : Bytes → Type 0
Whole x = contains_byte b'/' x ≡ false

whole : Bytes → Bool
whole x = not (contains_byte b'/' x)

keys_whole : all whole all_supported_keys ≡ true
unfolding all_supported_keys contains_byte whole
keys_whole = refl

has_key-all :
    (p : Bytes → Bool) (m : List Bytes) (k : Bytes)
    → all p m ≡ true
    → has_key m k ≡ true
    → p k ≡ true
unfolding has_key
has_key-all p [] k h e = cc
has_key-all p (j ∷ m) k h e =
    let (first, rest) = &&_split (p j) (all p m) h in
    elim (Bool-cases (eqb j k)) [
      | inl same ↦ rw (← eqb→eq j k same) first
      | inr other ↦ has_key-all p m k rest (rw other at e)
    ]

cut_before : (x y : Bytes) → Whole x → before_byte b'/' (x ++ b'/' ∷ y) ≡ x
unfolding contains_byte before_byte
cut_before [] y h = refl
cut_before (c ∷ x) y h = elim (Bool-cases (c == b'/')) [
  | inl slash ↦ absurd (false≢true (ground arith))
  | inr other ↦ rw (other, cut_before x y (rw other at h)) refl
]

cut_from : (x y : Bytes) → Whole x → from_byte b'/' (x ++ b'/' ∷ y) ≡ b'/' ∷ y
unfolding contains_byte from_byte
cut_from [] y h = refl
cut_from (c ∷ x) y h = elim (Bool-cases (c == b'/')) [
  | inl slash ↦ absurd (false≢true (ground arith))
  | inr other ↦ rw (other, cut_from x y (rw other at h)) refl
]

not_cut : (x : Bytes) → Whole x → from_byte b'/' x ≡ []
unfolding contains_byte from_byte
not_cut [] h = refl
not_cut (c ∷ x) h = elim (Bool-cases (c == b'/')) [
  | inl slash ↦ absurd (false≢true (ground arith))
  | inr other ↦ rw (other, not_cut x (rw other at h)) refl
]

read_key :
    (x v : Bytes)
    → Whole x
    → key_is_valid (record { name = x; variable = v }) ≡ true
    → parse_key (key_string (record { name = x; variable = v }))
      ≡ some (record { name = x; variable = v })
unfolding key_string parse_key split_key
read_key x [] w h = rw (not_cut x w, h) refl
read_key x (c ∷ v) w h = rw (cut_from x (c ∷ v) w, cut_before x (c ∷ v) w, h) refl

-- The text of a valid key, with its variable or without one, is read as that key.
pub parse_key-key_string : (k : Key) → key_is_valid k ≡ true → parse_key (key_string k) ≡ some k
unfolding key_is_valid whole
parse_key-key_string k h =
    let no_slash = has_key-all whole all_supported_keys k.name keys_whole h in
    read_key k.name k.variable (ground arith) h
