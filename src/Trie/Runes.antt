-- ===== src/Trie/Runes.antt =====
-- trie/trie.go: the runes of a key, as `range` meets them.
use silo_pkg.Prelude.{
  ℕ, zero, suc, ◌+◌, ◌-◌, ◌*◌, List, [], ◌∷◌, Bool, ◌&&◌, leb, ltb, ◌==◌, if◌then◌else◌, ◌≡◌, refl,
}
use silo_pkg.Prelude.Bytes.{Bytes}

within : ℕ → ℕ → ℕ → Bool
within low high b = leb low b && leb b high

-- the byte behind the first one at which an encoding of 3 or 4 bytes goes on
second_of_three : ℕ → ℕ → Bool
unfolding within
second_of_three b0 b1 =
    if b0 == 224
    then within 160 191 b1
    else if b0 == 237
    then within 128 159 b1
    else within 128 191 b1

second_of_four : ℕ → ℕ → Bool
unfolding within
second_of_four b0 b1 =
    if b0 == 240
    then within 144 191 b1
    else if b0 == 244
    then within 128 143 b1
    else within 128 191 b1

two : ℕ → Bytes → ℕ × ℕ
unfolding within
two b0 [] = (65533, 1)
two b0 (b1 ∷ s) = if within 128 191 b1 then ((b0 - 192) * 64 + (b1 - 128), 2) else (65533, 1)

three : ℕ → Bytes → ℕ × ℕ
unfolding within second_of_three
three b0 (b1 ∷ b2 ∷ s) =
    if second_of_three b0 b1 && within 128 191 b2
    then ((b0 - 224) * 4096 + (b1 - 128) * 64 + (b2 - 128), 3)
    else (65533, 1)
three b0 [] = (65533, 1)
three b0 (b1 ∷ []) = (65533, 1)

four : ℕ → Bytes → ℕ × ℕ
unfolding within second_of_four
four b0 (b1 ∷ b2 ∷ b3 ∷ s) =
    if second_of_four b0 b1 && within 128 191 b2 && within 128 191 b3
    then ((b0 - 240) * 262144 + (b1 - 128) * 4096 + (b2 - 128) * 64 + (b3 - 128), 4)
    else (65533, 1)
four b0 [] = (65533, 1)
four b0 (b1 ∷ []) = (65533, 1)
four b0 (b1 ∷ b2 ∷ []) = (65533, 1)

-- the first rune of a text in UTF-8 and its width; a byte that starts none is U+FFFD
decode_rune : ℕ → Bytes → ℕ × ℕ
unfolding within two three four
decode_rune b0 s =
    if ltb b0 128
    then (b0, 1)
    else if within 194 223 b0
    then two b0 s
    else if within 224 239 b0
    then three b0 s
    else if within 240 244 b0
    then four b0 s
    else (65533, 1)

runes_from : ℕ → ℕ → Bytes → List (ℕ × ℕ)
unfolding decode_rune
runes_from index skip [] = []
runes_from index (suc skip) (b ∷ s) = runes_from (suc index) skip s
runes_from index zero (b ∷ s) =
    let (rune, width) = decode_rune b s in (index, rune) ∷ runes_from (suc index) (width - 1) s

-- `for k, v := range key`: the index and the rune of every round
unfoldable pub runes : Bytes → List (ℕ × ℕ)
unfolding runes_from
runes key = runes_from 0 0 key

unfoldable pub runes_of : List (ℕ × ℕ) → List ℕ
runes_of [] = []
runes_of ((k, v) ∷ rest) = v ∷ runes_of rest

-- `for _, v := range key`
unfoldable pub path : Bytes → List ℕ
unfolding runes runes_of
path key = runes_of (runes key)

euro : runes (97 ∷ 226 ∷ 130 ∷ 172 ∷ 98 ∷ []) ≡ (0, 97) ∷ (1, 8364) ∷ (4, 98) ∷ []
unfolding runes
euro = refl

broken : runes (226 ∷ 130 ∷ 97 ∷ []) ≡ (0, 65533) ∷ (1, 65533) ∷ (2, 97) ∷ []
unfolding runes
broken = refl
