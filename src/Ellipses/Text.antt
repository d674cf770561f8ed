-- ===== src/Ellipses/Text.antt =====
-- ellipses/ellipses.go: the functions of packages strings, strconv and fmt that it calls.
use silo_pkg.Prelude.{
  ℕ, zero, suc, ◌+◌, ◌-◌, ◌*◌, ◌/◌, ◌%◌, ◌^◌, List, [], ◌∷◌, Bool, ◌&&◌, ◌||◌, leb, ltb, ◌==◌,
  if◌then◌else◌, length, Option, none, some, ◌≡◌, refl,
}
use mathlib.Core.Option
use silo_pkg.Prelude.Bytes.{Bytes, codes, has_prefix}

-- strings.Split(s, sep), for a separator that is not empty; what is left behind the next `skip` bytes
unfoldable pub split_from : ℕ → Bytes → Bytes → List Bytes
unfolding has_prefix
split_from skip sep [] = [] ∷ []
split_from (suc skip) sep (c ∷ s) = split_from skip sep s
split_from zero sep (c ∷ s) =
    let behind = split_from (length sep - 1) sep s in
    let rest = split_from zero sep s in
    if has_prefix (c ∷ s) sep then [] ∷ behind else onto_first c rest
  where
    onto_first : ℕ → List Bytes → List Bytes
    onto_first c [] = (c ∷ []) ∷ []
    onto_first c (part ∷ parts) = (c ∷ part) ∷ parts

-- strings.Count(s, sub) > 0
unfoldable pub contains : Bytes → Bytes → Bool
unfolding has_prefix
contains [] sub = has_prefix [] sub
contains (c ∷ s) sub = has_prefix (c ∷ s) sub || contains s sub

-- strings.TrimPrefix and strings.TrimSuffix, for a text of one byte
unfoldable pub trim_prefix : ℕ → Bytes → Bytes
trim_prefix b [] = []
trim_prefix b (c ∷ s) = if c == b then s else c ∷ s

unfoldable pub trim_suffix : ℕ → Bytes → Bytes
trim_suffix b [] = []
trim_suffix b (c ∷ []) = if c == b then [] else c ∷ []
trim_suffix b (c ∷ d ∷ s) = c ∷ trim_suffix b (d ∷ s)

-- the value of a digit in base 16, and in the bases below
unfoldable pub digit : ℕ → Option ℕ
digit c =
    if leb b'0' c && leb c b'9'
    then some (c - b'0')
    else if leb b'a' c && leb c b'f'
    then some (c - b'a' + 10)
    else if leb b'A' c && leb c b'F'
    then some (c - b'A' + 10)
    else none

unfoldable pub digits_from : ℕ → ℕ → Bytes → Option ℕ
unfolding digit
digits_from base n [] = some n
digits_from base n (c ∷ s) =
    Option.bind (digit c) λ d. if leb base d then none else digits_from base (n * base + d) s

unfoldable pub in_64_bits : ℕ → Option ℕ
in_64_bits n = if ltb n (2 ^ 64) then some n else none

-- strconv.ParseUint(s, base, 64), for the bases 10 and 16; `none` is the error
unfoldable pub parse_uint : ℕ → Bytes → Option ℕ
unfolding digits_from in_64_bits
parse_uint base [] = none
parse_uint base (c ∷ s) = Option.bind (digits_from base 0 (c ∷ s)) in_64_bits

digit_byte : ℕ → ℕ
digit_byte d = if ltb d 10 then b'0' + d else b'a' + (d - 10)

-- the digits of a number below base ^ fuel, before the ones given
digits_before : ℕ → ℕ → ℕ → Bytes → Bytes
unfolding digit_byte
digits_before zero base n s = s
digits_before (suc fuel) base n s =
    let front = digits_before fuel base (n / base) (digit_byte (n % base) ∷ s) in
    if ltb n base then digit_byte n ∷ s else front

-- the verbs %d and %x for a number of 64 bits, which has 20 digits at most
unfoldable pub format_uint : ℕ → ℕ → Bytes
unfolding digits_before
format_uint base n = digits_before 20 base n []

zeros : ℕ → Bytes → Bytes
zeros zero s = s
zeros (suc n) s = b'0' ∷ zeros n s

-- the verbs %0Nd and %0Nx
unfoldable pub format_padded : ℕ → ℕ → ℕ → Bytes
unfolding format_uint zeros
format_padded base width n = let s = format_uint base n in zeros (width - length s) s

padded : format_padded 16 3 26 ≡ codes "01a"
unfolding format_padded
padded = refl

reads_hexadecimal : parse_uint 16 (codes "fF") ≡ some 255
unfolding parse_uint Option.bind
reads_hexadecimal = refl

splits : split_from 0 (codes "...") (codes "1...64") ≡ codes "1" ∷ codes "64" ∷ []
unfolding split_from
splits = refl
