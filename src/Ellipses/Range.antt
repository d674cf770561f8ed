-- ===== src/Ellipses/Range.antt =====
-- ellipses/ellipses.go: the range of a pattern {M...N}.
use silo_pkg.Prelude.{
  ℕ, zero, suc, ◌+◌, ◌%◌, ◌^◌, List, [], ◌∷◌, Bool, true, false, not, ◌&&◌, ◌||◌, leb, ltb,
  if◌then◌else◌, length, Option, none, some, ◌≡◌, refl,
}
use mathlib.Core.Option
use silo_pkg.Prelude.Bytes.{Bytes, codes, has_prefix, contains_byte}
use silo_pkg.Ellipses.Text.{
  split_from, trim_prefix, trim_suffix, parse_uint, format_uint, format_padded,
}

-- What a call comes to with some fuel: it returns a value or an error, or its loop is not at its end.
pub data Result (A : Type 0) : Type 0 where
  done : A → Result A
  error : Result A
  running : Result A

-- the first and the last number of a range, their texts, and whether one of them is hexadecimal
pub record Range : Type 0 where
  pub first_text : Bytes
  pub last_text : Bytes
  pub start : ℕ
  pub end : ℕ
  pub hexadecimal : Bool

-- a decimal number, else a hexadecimal one
unfoldable pub parse_number : Bytes → Option (ℕ × Bool)
unfolding parse_uint
parse_number s = elim (parse_uint 10 s) [
  | some n ↦ some (n, false)
  | none ↦ Option.map (λ n. (n, true)) (parse_uint 16 s)
]

unfoldable pub range_of : List Bytes → Option Range
unfolding parse_number Option.bind
range_of [] = none
range_of (a ∷ []) = none
range_of (a ∷ b ∷ []) = Option.bind (parse_number a) λ (start, first_hex).
    Option.bind (parse_number b) λ (end, last_hex). some (record {
      first_text = a;
      last_text = b;
      start = start;
      end = end;
      hexadecimal = first_hex || last_hex;
    })
range_of (a ∷ b ∷ c ∷ parts) = none

-- `parseEllipsesRange` before the test of the order; `none` is the error
unfoldable pub parse_bounds : Bytes → Option Range
unfolding range_of contains_byte trim_prefix trim_suffix split_from
parse_bounds pattern =
    if not (contains_byte b'{' pattern)
    then none
    else if not (contains_byte b'}' pattern)
    then none
    else range_of (split_from 0 (codes "...") (trim_suffix b'}' (trim_prefix b'{' pattern)))

-- the text of a number of the range
unfoldable pub label : Range → ℕ → Bytes
unfolding has_prefix format_uint format_padded
label r i =
    let base = if r.hexadecimal then 16 else 10 in
    if has_prefix r.first_text (codes "0") && ltb 1 (length r.first_text)
      || has_prefix r.last_text (codes "0")
    then format_padded base (length r.last_text) i
    else format_uint base i

unfoldable pub onto : Bytes → Result (List Bytes) → Result (List Bytes)
onto x (done xs) = done (x ∷ xs)
onto x error = error
onto x running = running

-- the loop `for i := start; i <= end; i++` over uint64
unfoldable pub range_loop : ℕ → (ℕ → Bytes) → ℕ → ℕ → Result (List Bytes)
unfolding onto
range_loop zero text i end = running
range_loop (suc fuel) text i end =
    let rest = range_loop fuel text ((i + 1) % 2 ^ 64) end in
    if leb i end then onto (text i) rest else done []

unfoldable pub expand_range : ℕ → Option Range → Result (List Bytes)
unfolding range_loop label
expand_range fuel none = error
expand_range fuel (some r) =
    let labels = range_loop fuel (label r) r.start r.end in
    if ltb r.end r.start then error else labels

-- `parseEllipsesRange`
unfoldable pub parse_ellipses_range : ℕ → Bytes → Result (List Bytes)
unfolding expand_range parse_bounds
parse_ellipses_range fuel pattern = expand_range fuel (parse_bounds pattern)

from_8_to_11 :
    parse_ellipses_range 5 (codes "{08...11}")
    ≡ done (codes "08" ∷ codes "09" ∷ codes "10" ∷ codes "11" ∷ [])
unfolding parse_ellipses_range Option.bind
from_8_to_11 = refl
