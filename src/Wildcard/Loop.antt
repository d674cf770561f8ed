-- ===== src/Wildcard/Loop.antt =====
-- wildcard/match.go: `deepMatchRune` and the functions that call it. The indices `s` and `p` are
-- the suffixes `str[s:]` and `pattern[p:]`; `star` and `mark` are the suffixes that stand behind
-- them, `none` for `star == -1`. The loop runs on fuel, and `none` means that it ran out.
use silo_pkg.Prelude.{
  ℕ, zero, suc, ◌+◌, ◌-◌, ◌*◌, Bool, true, false, not, ◌&&◌, ◌||◌, Option, none, some, [], ◌∷◌,
  ◌++◌, leb, ◌==◌, if◌then◌else◌, length, drop, is_empty,
}
use silo_pkg.Prelude.Bytes.{Bytes, eqb}
use silo_pkg.Wildcard.Pattern.{Token, star, any, lit, token}

-- xs[i], where the caller's bounds make it a read in range
abbrev pub at : Bytes → ℕ → ℕ
at [] i = 0
at (x ∷ xs) zero = x
at (x ∷ xs) (suc i) = at xs i

-- The loop of `matchFixedSuffix`, for the indices below i.
unfoldable pub fixed_below : Bytes → Bytes → ℕ → Bool
fixed_below str pattern zero = true
fixed_below str pattern (suc i) =
    let rest = fixed_below str pattern i in
    if not (at pattern i == b'?') && not (at pattern i == at str i) then false else rest

unfoldable pub match_fixed_suffix : Bytes → Bytes → Bool
unfolding fixed_below
match_fixed_suffix str pattern =
    fixed_below (drop (length str - length pattern) str) pattern (length pattern)

-- The inner loop over `end`, at a '*': `seg` is `pattern[p:end]`, and the last argument is
-- `pattern[end:]`.
unfoldable pub probe : Bytes → Bytes → Bytes → Bool
probe str seg [] = false
probe str seg (c ∷ pattern) =
    let rest = probe str (seg ++ c ∷ []) pattern in
    if not (c == b'*') && leb (length seg) (length str)
    then (if c == b'?' && match_fixed_suffix str seg then true else rest)
    else false

-- `star` and `mark`
abbrev pub Back : Type 0
Back = Option (Bytes × Bytes)

abbrev pub Round : Type 0
Round = Bytes → Bytes → Back → Option Bool

-- What follows the `switch`: the last '*' takes one more byte.
unfoldable pub retry : Back → Round → Option Bool
retry none next = some false
retry (some (bp, [])) next = some false
retry (some (bp, x ∷ bs)) next = next bs bp (some (bp, bs))

-- `case '*'`
unfoldable pub at_star : Bool → Bytes → Bytes → Round → Option Bool
at_star simple s [] next = some true
at_star simple s (c ∷ p) next =
    if simple && probe s [] (c ∷ p) then some true else next s (c ∷ p) (some (c ∷ p, s))

-- `case '?'`
unfoldable pub at_any : Bool → Bytes → Bytes → Back → Round → Option Bool
at_any simple [] p back next = if simple then some true else retry back next
at_any simple (x ∷ s) p back next = next s p back

-- `default`
unfoldable pub at_byte : ℕ → Bytes → Bytes → Back → Round → Option Bool
at_byte c [] p back next = retry back next
at_byte c (x ∷ s) p back next = if c == x then next s p back else retry back next

unfoldable pub dispatch : Bool → Token → Bytes → Bytes → Back → Round → Option Bool
unfolding at_star at_any at_byte
dispatch simple star s p back next = at_star simple s p next
dispatch simple any s p back next = at_any simple s p back next
dispatch simple (lit c) s p back next = at_byte c s p back next

unfoldable pub loop : ℕ → Bool → Round
loop zero simple s p back = none
loop (suc f) simple [] [] back = some true
loop (suc f) simple (x ∷ s) [] back = retry back (loop f simple)
loop (suc f) simple s (c ∷ p) back = dispatch simple (token c) s p back (loop f simple)

unfoldable pub deep_match_rune : Bytes → Bytes → Bool → Option Bool
unfolding loop dispatch retry token probe match_fixed_suffix
deep_match_rune str pattern simple =
    loop ((length str + 1) * (length pattern + 1)) simple str pattern none

abbrev pub star_only : Bytes
star_only = b'*' ∷ []

-- `Match`
unfoldable pub match_text : Bytes → Bytes → Option Bool
unfolding eqb deep_match_rune
match_text pattern name =
    if is_empty pattern
    then some (eqb name pattern)
    else if eqb pattern star_only
    then some true
    else deep_match_rune name pattern false

-- `MatchSimple`
unfoldable pub match_simple : Bytes → Bytes → Option Bool
unfolding eqb deep_match_rune
match_simple pattern name =
    if is_empty pattern
    then some (eqb name pattern)
    else if eqb pattern star_only
    then some true
    else deep_match_rune name pattern true

-- `Has`: strings.ContainsAny(pattern, "*?")
unfoldable pub has : Bytes → Bool
has [] = false
has (c ∷ pattern) = c == b'*' || c == b'?' || has pattern

-- `MatchAsPatternPrefix`: the loop ends with the shorter of the two, and then compares lengths.
unfoldable pub match_as_pattern_prefix : Bytes → Bytes → Bool
match_as_pattern_prefix [] [] = true
match_as_pattern_prefix [] (x ∷ text) = false
match_as_pattern_prefix (c ∷ pattern) [] = true
match_as_pattern_prefix (c ∷ pattern) (x ∷ text) =
    let rest = match_as_pattern_prefix pattern text in
    if c == b'*' then true else if c == b'?' then rest else if c == x then rest else false
