-- ===== src/Ellipses/Examples.antt =====
-- ellipses/ellipses.go: the theorems at concrete patterns.
use silo_pkg.Prelude.{
  ◌≤◌, ◌-◌, ◌^◌, ◌<◌, List, [], ◌∷◌, false, length, map, Option, none, some, ret, ◌≡◌, ◌≢◌, refl,
  ◌↔◌, ◌⊎◌, arith, inl, inr, Bool-cases, if◌then◌else◌,
}
use mathlib.Core.Option
use silo_pkg.Prelude.Bytes.{Bytes, codes, eqb, eqb→eq}
use silo_pkg.Ellipses.Range.{done, error, running, Range, parse_bounds, label, parse_ellipses_range}
use silo_pkg.Ellipses.RangeForm.{IsRangeText}
use silo_pkg.Ellipses.RangeLaws.{
  count_up, parse_ellipses_range-done, parse_ellipses_range-running, parse_ellipses_range-error,
}
use silo_pkg.Ellipses.Patterns.{Parts, arg_expander, find_patterns}
use silo_pkg.Ellipses.Expansion.{IsIn, Picks, product, arg_expander-Picks}
use silo_pkg.Ellipses.Search.{Met, whole, in_first, find_patterns-ends}

abbrev eight_to_eleven : Range
eight_to_eleven = record {
  first_text = codes "08";
  last_text = codes "11";
  start = 8;
  end = 11;
  hexadecimal = false;
}

parse_ellipses_range-done_example :
    parse_ellipses_range 5 (codes "{08...11}") ≡ done (map (label eight_to_eleven) (count_up 8 4))
unfolding parse_bounds Option.bind
parse_ellipses_range-done_example =
    parse_ellipses_range-done 5 (codes "{08...11}") eight_to_eleven refl (omega arith) (omega arith)
      (omega arith)

abbrev to_the_greatest : Range
to_the_greatest = record {
  first_text = codes "1";
  last_text = codes "18446744073709551615";
  start = 1;
  end = 2 ^ 64 - 1;
  hexadecimal = false;
}

parse_ellipses_range-running_example :
    parse_ellipses_range 1000 (codes "{1...18446744073709551615}") ≡ running
unfolding parse_bounds Option.bind
parse_ellipses_range-running_example =
    parse_ellipses_range-running 1000 (codes "{1...18446744073709551615}") to_the_greatest refl
      (omega arith) refl

parse_ellipses_range-error_example :
    (parse_ellipses_range 5 (codes "{4...4}") ≡ error)
    ↔ (¬ ((r : Range) × IsRangeText (codes "{4...4}") r × (r.start ≤ r.end)))
parse_ellipses_range-error_example = parse_ellipses_range-error 5 (codes "{4...4}")

abbrev hosts : List Bytes
hosts = codes "h1" ∷ codes "h2" ∷ []

abbrev disks : List Bytes
disks = codes "/d1" ∷ codes "/d2" ∷ codes "/d3" ∷ []

arg_expander-Picks_example :
    (out : List (List Bytes)) × (arg_expander (hosts ∷ disks ∷ []) ≡ ret out)
    × (length out ≡ product (hosts ∷ disks ∷ []))
    × ((r : List Bytes) → IsIn r out ↔ Picks (hosts ∷ disks ∷ []) r)
arg_expander-Picks_example = arg_expander-Picks hosts (disks ∷ [])

-- The matches of an argument with two ranges, and of the first group of its match.
abbrev drives : Bytes
drives = codes "{1...2}/d{3...4}"

abbrev last_range : Parts
last_range = record { before = codes "{1...2}/d"; braces = codes "{3...4}"; behind = [] }

abbrev first_range : Parts
first_range = record { before = []; braces = codes "{1...2}"; behind = codes "/d" }

range_submatch : Bytes → Option Parts
unfolding eqb
range_submatch s =
    if eqb s drives
    then some last_range
    else if eqb s (codes "{1...2}/d")
    then some first_range
    else none

range_submatch-cases :
    (s : Bytes) (parts : Parts)
    → range_submatch s ≡ some parts
    → ((s ≡ drives) × (last_range ≡ parts)) ⊎ ((s ≡ codes "{1...2}/d") × (first_range ≡ parts))
unfolding range_submatch
range_submatch-cases s parts e = elim (Bool-cases (eqb s drives)) [
  | inl same ↦ inl (eqb→eq s drives same, cc (rw same at e))
  | inr other ↦ elim (Bool-cases (eqb s (codes "{1...2}/d"))) [
    | inl same ↦ inr (eqb→eq s (codes "{1...2}/d") same, cc (rw (other, same) at e))
    | inr neither ↦ cc (rw (other, neither) at e)
  ]
]

range_submatch-shorter :
    (s : Bytes) (parts : Parts) → range_submatch s ≡ some parts → length parts.before < length s
range_submatch-shorter s parts e = elim (range_submatch-cases s parts e) [
  | inl (text, groups) ↦ rw (text, ← groups) (omega arith)
  | inr (text, groups) ↦ rw (text, ← groups) (omega arith)
]

range_ends :
    (s : Bytes) (parts : Parts)
    → range_submatch s ≡ some parts
    → parse_ellipses_range 5 parts.braces ≢ running
unfolding parse_ellipses_range parse_bounds Option.bind
range_ends s parts e = elim (range_submatch-cases s parts e) [
  | inl (text, groups) ↦ rw (← groups) (λ k. cc)
  | inr (text, groups) ↦ rw (← groups) (λ k. cc)
]

drives-ends :
    (parts : Parts)
    → Met range_submatch drives parts
    → parse_ellipses_range 5 parts.braces ≢ running
drives-ends parts (whole p e) = range_ends drives parts e
drives-ends parts (in_first outer p m e) = range_ends outer.before parts e

-- The loop makes its two rounds.
drives_found :
    find_patterns range_submatch (parse_ellipses_range 5) 16 drives
    ≡ done (
        record { prefix = []; suffix = []; seq = codes "3" ∷ codes "4" ∷ [] }
        ∷ record { prefix = []; suffix = codes "/d"; seq = codes "1" ∷ codes "2" ∷ [] }
        ∷ [])
unfolding find_patterns range_submatch parse_ellipses_range parse_bounds Option.bind
drives_found = refl

find_patterns-ends_example :
    find_patterns range_submatch (parse_ellipses_range 5) 16 drives ≢ running
find_patterns-ends_example =
    find_patterns-ends range_submatch (parse_ellipses_range 5) range_submatch-shorter drives
      drives-ends
