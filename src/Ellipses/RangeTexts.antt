-- ===== src/Ellipses/RangeTexts.antt =====
-- ellipses/ellipses.go: the texts that parseEllipsesRange takes apart: numbers hold no dot and no brace,
-- so there is one way to read "{", a number, "...", a number, "}".
use silo_pkg.Prelude.{
  ℕ, ◌+◌, ◌*◌, [], ◌∷◌, ◌++◌, Bool, true, false, leb, ◌||◌, ◌==◌, if◌then◌else◌, Option, none, some,
  ◌≡◌, refl, ap, arith, ◌⊎◌, inl, inr, Bool-cases, ==_iff,
}
use mathlib.Core.Option
use silo_pkg.Prelude.Bytes.{Bytes, codes, has_prefix, contains_byte}
use silo_pkg.Ellipses.Text.{split_from, trim_suffix, digit, digits_from, in_64_bits, parse_uint}
use silo_pkg.Ellipses.Range.{parse_number}

digits_from-lacks :
    (c base n m : ℕ) (s : Bytes)
    → digit c ≡ none
    → digits_from base n s ≡ some m
    → contains_byte c s ≡ false
unfolding digits_from contains_byte Option.bind
digits_from-lacks c base n m [] h e = refl
digits_from-lacks c base n m (x ∷ s) h e = elim (Bool-cases (x == c)) [
  | inl same ↦ let eq : x ≡ c = (==_iff x c).0 same in cc (rw (eq, h) at e)
  | inr other ↦
      rw other (digits_behind (digit x) (λ d. digits_from-lacks c base (n * base + d) m s h) e)
]
  where
    digits_behind :
        (o : Option ℕ)
        → ((d : ℕ) → digits_from base (n * base + d) s ≡ some m → contains_byte c s ≡ false)
        → Option.bind o (λ d. if leb base d then none else digits_from base (n * base + d) s)
          ≡ some m
        → contains_byte c s ≡ false
    digits_behind none rest k = cc
    digits_behind (some d) rest k = elim (Bool-cases (leb base d)) [
      | inl over ↦ cc (rw over at k)
      | inr below ↦ rest d (rw below at k)
    ]

parse_uint-lacks :
    (c base m : ℕ) (s : Bytes)
    → digit c ≡ none
    → parse_uint base s ≡ some m
    → contains_byte c s ≡ false
unfolding parse_uint Option.bind
parse_uint-lacks c base m [] h e = cc
parse_uint-lacks c base m (x ∷ s) h e = go (digits_from base 0 (x ∷ s)) refl e
  where
    go :
        (o : Option ℕ)
        → digits_from base 0 (x ∷ s) ≡ o
        → Option.bind o in_64_bits ≡ some m
        → contains_byte c (x ∷ s) ≡ false
    go none f k = cc
    go (some n) f k = digits_from-lacks c base 0 n (x ∷ s) h f

-- A byte that is no digit is in no number.
pub parse_number-lacks :
    (c : ℕ) (v : ℕ × Bool) (s : Bytes)
    → digit c ≡ none
    → parse_number s ≡ some v
    → contains_byte c s ≡ false
unfolding parse_number
parse_number-lacks c v s h e = go (parse_uint 10 s) (parse_uint 16 s) refl refl e
  where
    go :
        (o u : Option ℕ)
        → parse_uint 10 s ≡ o
        → parse_uint 16 s ≡ u
        → elim o [ some n ↦ some (n, false) | none ↦ Option.map (λ n. (n, true)) u ] ≡ some v
        → contains_byte c s ≡ false
    go (some n) u f g k = parse_uint-lacks c 10 n s h f
    go none (some n) f g k = parse_uint-lacks c 16 n s h g
    go none none f g k = cc

pub contains_byte-append :
    (c : ℕ) (s t : Bytes) → contains_byte c (s ++ t) ≡ (contains_byte c s || contains_byte c t)
unfolding contains_byte
contains_byte-append c [] t = refl
contains_byte-append c (x ∷ s) t = rw (contains_byte-append c s t) (ground arith)

abbrev pub dots : Bytes
dots = codes "..."

split_from-one : (s : Bytes) → contains_byte b'.' s ≡ false → split_from 0 dots s ≡ s ∷ []
unfolding split_from contains_byte has_prefix
split_from-one [] h = refl
split_from-one (x ∷ s) h =
    let not_dot : (x == b'.') ≡ false = ground arith in
    rw (not_dot, split_from-one s (rw not_dot at h)) refl

pub split_from-two :
    (a b : Bytes)
    → contains_byte b'.' a ≡ false
    → contains_byte b'.' b ≡ false
    → split_from 0 dots (a ++ dots ++ b) ≡ a ∷ b ∷ []
unfolding split_from contains_byte has_prefix
split_from-two [] b h k = rw (split_from-one b k) refl
split_from-two (x ∷ a) b h k =
    let not_dot : (x == b'.') ≡ false = ground arith in
    rw (not_dot, split_from-two a b (rw not_dot at h) k) refl

pub trim_suffix-append : (c : ℕ) (w : Bytes) → trim_suffix c (w ++ c ∷ []) ≡ w
unfolding trim_suffix
trim_suffix-append c [] = ground arith
trim_suffix-append c (x ∷ []) = ground arith
trim_suffix-append c (x ∷ y ∷ w) = ap (λ s. x ∷ s) (trim_suffix-append c (y ∷ w))

pub trim_suffix-cases :
    (c : ℕ) (s : Bytes) → (s ≡ trim_suffix c s ++ c ∷ []) ⊎ (s ≡ trim_suffix c s)
unfolding trim_suffix
trim_suffix-cases c [] = inr refl
trim_suffix-cases c (x ∷ []) = elim (Bool-cases (x == c)) [
  | inl same ↦ inl (rw (same, (==_iff x c).0 same) refl)
  | inr other ↦ inr (rw other refl)
]
trim_suffix-cases c (x ∷ y ∷ s) = elim (trim_suffix-cases c (y ∷ s)) [
  | inl e ↦ inl (ap (λ t. x ∷ t) e)
  | inr e ↦ inr (ap (λ t. x ∷ t) e)
]
