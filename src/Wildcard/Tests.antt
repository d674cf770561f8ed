-- ===== src/Wildcard/Tests.antt =====
-- Runs of the matchers of wildcard/match.go at inputs of its test file.
use silo_pkg.Prelude.{◌≡◌, refl, true, false, some}
use silo_pkg.Prelude.Bytes.{codes}
use silo_pkg.Wildcard.Loop.{match_text, match_simple, match_as_pattern_prefix}

backtracks :
    match_text (codes "my-bucket/In*/Ka*/Ban") (codes "my-bucket/India/Karnataka/Ban") ≡ some true
unfolding match_text
backtracks = refl

too_long : match_text (codes "abc?") (codes "abcde") ≡ some false
unfolding match_text
too_long = refl

simple_cut : match_simple (codes "a?b") (codes "a") ≡ some true
unfolding match_simple
simple_cut = refl

simple_probe : match_simple (codes "*b?c*d") (codes "ab") ≡ some true
unfolding match_simple
simple_probe = refl

match_needs_more : match_text (codes "a?b") (codes "a") ≡ some false
unfolding match_text
match_needs_more = refl

prefix_star : match_as_pattern_prefix (codes "abc*c") (codes "abcd") ≡ true
unfolding match_as_pattern_prefix
prefix_star = refl
