-- ===== src/Wildcard/Examples.antt =====
-- wildcard/match.go: the theorems on the matchers at concrete patterns and names.
use silo_pkg.Prelude.{◌≡◌, true, false, some, ◌↔◌, ◌++◌}
use silo_pkg.Prelude.Bytes.{Bytes, codes}
use silo_pkg.Wildcard.Pattern.{Matches, meaning}
use silo_pkg.Wildcard.Loop.{match_text, match_simple, match_as_pattern_prefix}
use silo_pkg.Wildcard.Correct.{matches, matches_simple, matches_iff, matches_simple_iff}
use silo_pkg.Wildcard.Prefix.{match_as_pattern_prefix_iff}

matches_iff_example :
    (match_text (codes "In*/B?n") (codes "India/Ban")
      ≡ some (matches (codes "In*/B?n") (codes "India/Ban")))
    × ((matches (codes "In*/B?n") (codes "India/Ban") ≡ true)
        ↔ Matches false (meaning (codes "In*/B?n")) (codes "India/Ban"))
matches_iff_example = matches_iff (codes "In*/B?n") (codes "India/Ban")

matches_simple_iff_example :
    (match_simple (codes "*b?c") (codes "ab") ≡ some (matches_simple (codes "*b?c") (codes "ab")))
    × ((matches_simple (codes "*b?c") (codes "ab") ≡ true)
        ↔ Matches true (meaning (codes "*b?c")) (codes "ab"))
matches_simple_iff_example = matches_simple_iff (codes "*b?c") (codes "ab")

match_as_pattern_prefix_iff_example :
    (match_as_pattern_prefix (codes "ab??d") (codes "abxc") ≡ true)
    ↔ ((ext : Bytes) × Matches false (meaning (codes "ab??d")) (codes "abxc" ++ ext))
match_as_pattern_prefix_iff_example = match_as_pattern_prefix_iff (codes "ab??d") (codes "abxc")
