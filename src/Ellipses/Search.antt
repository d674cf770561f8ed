-- ===== src/Ellipses/Search.antt =====
-- ellipses/ellipses.go: the search for patterns comes to its end.
use silo_pkg.Prelude.{
  ℕ, zero, suc, ◌<◌, List, [], Bool, true, false, if◌then◌else◌, length, Option, none, some, ◌≡◌,
  ◌≢◌, refl, arith,
}
use silo_pkg.Prelude.Bytes.{Bytes}
use silo_pkg.Ellipses.Range.{Result, done, error, running}
use silo_pkg.Ellipses.Patterns.{
  Pattern, Parts, parsed, before_all, patterns_step, patterns_from, check_left_over, found_parts,
  find_patterns,
}

neither : (b : Bool) (ps : List Pattern) → (if b then error else done ps) ≢ running
neither true ps e = cc
neither false ps e = cc

-- The groups that the loop over an argument meets: those of its match, and those of the match of a first
-- group that it meets.
pub data Met (find_submatch : Bytes → Option Parts) (arg : Bytes) : Parts → Type 0 where
  whole : (parts : Parts) → find_submatch arg ≡ some parts → Met find_submatch arg parts
  in_first :
      (parts next : Parts)
      → Met find_submatch arg parts
      → find_submatch parts.before ≡ some next
      → Met find_submatch arg next

module _ (find_submatch : Bytes → Option Parts) (pattern_parser : Bytes → Result (List Bytes))
    (shorter : (s : Bytes) (parts : Parts)
      → find_submatch s ≡ some parts
      → length parts.before < length s) where
  parsed-ends :
      (prefix suffix : Bytes) (r : Result (List Bytes))
      → r ≢ running
      → parsed find_submatch pattern_parser prefix suffix r ≢ running
  unfolding parsed
  parsed-ends prefix suffix (done seq) h e = cc
  parsed-ends prefix suffix error h e = cc
  parsed-ends prefix suffix running h e = h refl

  before_all-ends :
      (p : Result Pattern) (ps : Result (List Pattern))
      → p ≢ running
      → ps ≢ running
      → before_all find_submatch pattern_parser p ps ≢ running
  unfolding before_all
  before_all-ends (done p) (done ps) h k e = cc
  before_all-ends (done p) error h k e = cc
  before_all-ends (done p) running h k e = k refl
  before_all-ends error ps h k e = cc
  before_all-ends running ps h k e = h refl

  patterns_step-ends :
      (parts : Parts) (o : Option Parts) (go : Parts → Result (List Pattern))
      → pattern_parser parts.braces ≢ running
      → ((next : Parts) → o ≡ some next → go next ≢ running)
      → patterns_step find_submatch pattern_parser parts o go ≢ running
  unfolding patterns_step
  patterns_step-ends parts none go p h =
      before_all-ends _ _ (parsed-ends parts.before parts.behind _ p) (λ e. cc)
  patterns_step-ends parts (some next) go p h =
      before_all-ends _ _ (parsed-ends [] parts.behind _ p) (h next refl)

  patterns_from-ends :
      (arg : Bytes)
      → ((parts : Parts) → Met find_submatch arg parts → pattern_parser parts.braces ≢ running)
      → (fuel : ℕ) (parts : Parts) → Met find_submatch arg parts
      → length parts.before < fuel
      → patterns_from find_submatch pattern_parser fuel parts ≢ running
  unfolding patterns_from
  patterns_from-ends arg ends zero parts met less e = absurd (omega arith)
  patterns_from-ends arg ends (suc fuel) parts met less e =
      patterns_step-ends parts (find_submatch parts.before)
        (patterns_from find_submatch pattern_parser fuel) (ends parts met)
        (λ next m.
          patterns_from-ends arg ends fuel next (in_first parts next met m)
            (let s = shorter parts.before next m in omega arith))
        e

  check_left_over-ends :
      (r : Result (List Pattern))
      → r ≢ running
      → check_left_over find_submatch pattern_parser r ≢ running
  unfolding check_left_over
  check_left_over-ends (done ps) h e = neither _ ps e
  check_left_over-ends error h e = cc
  check_left_over-ends running h e = h refl

  found_parts-ends :
      (arg : Bytes)
      → ((parts : Parts) → Met find_submatch arg parts → pattern_parser parts.braces ≢ running)
      → (fuel : ℕ) (o : Option Parts)
      → ((parts : Parts)
          → o ≡ some parts
          → Met find_submatch arg parts × (length parts.before < fuel))
      → found_parts find_submatch pattern_parser fuel o ≢ running
  unfolding found_parts
  found_parts-ends arg ends fuel none h = λ e. cc
  found_parts-ends arg ends fuel (some parts) h =
      let (met, less) = h parts refl in
      check_left_over-ends _ (patterns_from-ends arg ends fuel parts met less)

  -- If the first group of a match is shorter than the text that is matched, and the parser ends on the
  -- braces of each match that the loop meets in the argument, then `findPatterns` ends with fuel for as
  -- many rounds as the argument has bytes.
  pub find_patterns-ends :
      (arg : Bytes)
      → ((parts : Parts) → Met find_submatch arg parts → pattern_parser parts.braces ≢ running)
      → find_patterns find_submatch pattern_parser (length arg) arg ≢ running
  unfolding find_patterns
  find_patterns-ends arg ends =
      found_parts-ends arg ends (length arg) (find_submatch arg)
        (λ parts e. (whole parts e, shorter arg parts e))
