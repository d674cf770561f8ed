-- ===== src/Ellipses/Patterns.antt =====
-- ellipses/ellipses.go: the patterns of an argument and their expansion.
use silo_pkg.Prelude.{
  ℕ, zero, suc, List, [], ◌∷◌, ◌++◌, Bool, true, not, ◌&&◌, ◌||◌, any, is_empty, if◌then◌else◌, map,
  Option, none, some, Outcome, ret, panic, ◌>>=◌,
}
use silo_pkg.Prelude.Bytes.{Bytes, codes}
use silo_pkg.Ellipses.Text.{contains}
use silo_pkg.Ellipses.Range.{Result, done, error, running}

-- `Pattern`
pub record Pattern : Type 0 where
  pub prefix : Bytes
  pub suffix : Bytes
  pub seq : List Bytes

-- `Pattern.Expand`: the four cases of its switch
unfoldable pub expand_one : Bytes → Bytes → Bytes → Bytes
expand_one prefix suffix s =
    if not (is_empty prefix) && is_empty suffix
    then prefix ++ s
    else if not (is_empty suffix) && is_empty prefix
    then s ++ suffix
    else if is_empty suffix && is_empty prefix
    then s
    else prefix ++ s ++ suffix

unfoldable pub expand_pattern : Pattern → List Bytes
unfolding expand_one
expand_pattern p = map (expand_one p.prefix p.suffix) p.seq

-- the lists of `rs` with one label behind each
unfoldable pub append_label : Bytes → List (List Bytes) → List (List Bytes)
append_label lbl rs = map (λ rlbls. rlbls ++ lbl ∷ []) rs

unfoldable pub append_labels : List Bytes → List (List Bytes) → List (List Bytes)
unfolding append_label
append_labels [] rs = []
append_labels (lbl ∷ lbls) rs = append_label lbl rs ++ append_labels lbls rs

-- `argExpander`; to read `labels[0]` of an empty slice panics
unfoldable pub arg_expander : List (List Bytes) → Outcome (List (List Bytes))
unfolding append_labels
arg_expander [] = panic
arg_expander (lbls ∷ []) = ret (map (λ v. v ∷ []) lbls)
arg_expander (lbls ∷ more ∷ labels) =
    let rest = arg_expander (more ∷ labels) in
    if is_empty lbls then ret [] else rest >>= λ rs. ret (append_labels lbls rs)

-- `ArgPattern.Expand`
unfoldable pub expand_patterns : List Pattern → Outcome (List (List Bytes))
unfolding arg_expander expand_pattern
expand_patterns patterns = arg_expander (map expand_pattern patterns)

-- `HasEllipses` of one argument, and of all
has_pattern : Bytes → Bool
unfolding contains
has_pattern arg =
    contains arg (codes "...") || (contains arg (codes "{") && contains arg (codes "}"))

unfoldable pub has_ellipses : List Bytes → Bool
unfolding has_pattern
has_ellipses [] = true
has_ellipses (arg ∷ args) = has_pattern arg && has_ellipses args

-- The three groups of a match, and the functions that `findPatterns` takes: the first group of
-- re.FindStringSubmatch and so on, and the parser of a range.
pub record Parts : Type 0 where
  pub before : Bytes
  pub braces : Bytes
  pub behind : Bytes

module _ (find_submatch : Bytes → Option Parts) (pattern_parser : Bytes → Result (List Bytes)) where
  -- a pattern with these parts, if the range is one
  unfoldable pub parsed : Bytes → Bytes → Result (List Bytes) → Result Pattern
  parsed prefix suffix (done seq) = done (record { prefix = prefix; suffix = suffix; seq = seq })
  parsed prefix suffix error = error
  parsed prefix suffix running = running

  unfoldable pub before_all : Result Pattern → Result (List Pattern) → Result (List Pattern)
  before_all (done p) (done ps) = done (p ∷ ps)
  before_all (done p) error = error
  before_all (done p) running = running
  before_all error rest = error
  before_all running rest = running

  -- the pattern of one match: the last one, with its prefix, or one before the patterns of the rest
  unfoldable pub patterns_step :
      Parts → Option Parts → (Parts → Result (List Pattern)) → Result (List Pattern)
  unfolding parsed before_all
  patterns_step parts none go =
      before_all (parsed parts.before parts.behind (pattern_parser parts.braces)) (done [])
  patterns_step parts (some next) go =
      before_all (parsed [] parts.behind (pattern_parser parts.braces)) (go next)

  -- the loop from the parts of a match on, and the pattern that is left behind it; a text matches if it has
  -- a match
  unfoldable pub patterns_from : ℕ → Parts → Result (List Pattern)
  unfolding patterns_step
  patterns_from zero parts = running
  patterns_from (suc fuel) parts =
      patterns_step parts (find_submatch parts.before) (patterns_from fuel)

  -- a prefix or a suffix with a brace left over
  left_over : Pattern → Bool
  unfolding contains
  left_over p =
      contains p.prefix (codes "{")
      || contains p.prefix (codes "}")
      || contains p.suffix (codes "{")
      || contains p.suffix (codes "}")

  unfoldable pub check_left_over : Result (List Pattern) → Result (List Pattern)
  unfolding left_over
  check_left_over (done ps) = if any left_over ps then error else done ps
  check_left_over error = error
  check_left_over running = running

  unfoldable pub found_parts : ℕ → Option Parts → Result (List Pattern)
  unfolding patterns_from check_left_over
  found_parts fuel none = error
  found_parts fuel (some parts) = check_left_over (patterns_from fuel parts)

  -- `findPatterns`
  unfoldable pub find_patterns : ℕ → Bytes → Result (List Pattern)
  unfolding found_parts
  find_patterns fuel arg = found_parts fuel (find_submatch arg)
