-- ===== src/Ellipses/RangeForm.antt =====
-- ellipses/ellipses.go: the patterns that parseEllipsesRange reads are "{", a number, "...", a number, "}".
use silo_pkg.Prelude.{
  false≢true, ◌⊎◌, ℕ, zero, suc, List, [], ◌∷◌, ◌++◌, drop, length, ap₂, &&_split, Bool, true,
  false, ◌||◌, ◌==◌, Option, none, some, ◌≡◌, refl, sym, ap, ◌∙◌, arith, inl, inr, Bool-cases,
  ==_iff,
}
use mathlib.Core.Option
use silo_pkg.Prelude.Bytes.{Bytes, has_prefix, contains_byte}
use silo_pkg.Ellipses.Text.{split_from, trim_prefix, trim_suffix, digit}
use silo_pkg.Ellipses.Range.{Range, parse_number, range_of, parse_bounds}
use silo_pkg.Ellipses.RangeTexts.{
  dots, parse_number-lacks, contains_byte-append, split_from-two, trim_suffix-append,
  trim_suffix-cases,
}

-- strings.Join(parts, "...")
rejoin : List Bytes → Bytes
rejoin [] = []
rejoin (part ∷ []) = part
rejoin (part ∷ next ∷ parts) = part ++ dots ++ rejoin (next ∷ parts)

HasPart : List Bytes → Type 0
HasPart parts = (p : Bytes) × (ps : List Bytes) × (parts ≡ p ∷ ps)

split_from-HasPart : (skip : ℕ) (s : Bytes) → HasPart (split_from skip dots s)
unfolding split_from HasPart
split_from-HasPart skip [] = ([], [], refl)
split_from-HasPart (suc skip) (x ∷ s) = split_from-HasPart skip s
split_from-HasPart zero (x ∷ s) = elim (Bool-cases (has_prefix (x ∷ s) dots)) [
  | inl sep ↦ rw sep ([], _, refl)
  | inr _ ↦
      let (p, ps, e) = split_from-HasPart zero s in
      elim (Bool-cases (has_prefix (x ∷ s) dots)) [
        | inl sep ↦ rw sep ([], _, refl)
        | inr other ↦ rw (other, e) (x ∷ p, ps, refl)
      ]
]

rejoin-sep : (parts : List Bytes) → HasPart parts → rejoin ([] ∷ parts) ≡ dots ++ rejoin parts
unfolding rejoin HasPart
rejoin-sep [] (p, ps, e) = cc
rejoin-sep (q ∷ parts) h = refl

has_prefix-drop : (s p : Bytes) → has_prefix s p ≡ true → p ++ drop (length p) s ≡ s
unfolding has_prefix
has_prefix-drop s [] h = refl
has_prefix-drop [] (c ∷ p) h = cc
has_prefix-drop (x ∷ s) (c ∷ p) h =
    let (same, rest) = &&_split (x == c) (has_prefix s p) h in
    ap₂ ◌∷◌ (sym ((==_iff x c).0 same)) (has_prefix-drop s p rest)

rejoin-first : (x : ℕ) (p : Bytes) (ps : List Bytes) → rejoin ((x ∷ p) ∷ ps) ≡ x ∷ rejoin (p ∷ ps)
unfolding rejoin
rejoin-first x p [] = refl
rejoin-first x p (q ∷ ps) = refl

-- What strings.Split makes of a text is the text, joined again.
rejoin-split_from : (skip : ℕ) (s : Bytes) → rejoin (split_from skip dots s) ≡ drop skip s
unfolding split_from rejoin HasPart
rejoin-split_from zero [] = refl
rejoin-split_from (suc skip) [] = refl
rejoin-split_from (suc skip) (x ∷ s) = rejoin-split_from skip s
rejoin-split_from zero (x ∷ s) = elim (Bool-cases (has_prefix (x ∷ s) dots)) [
  | inl sep ↦ rw sep (
      rejoin-sep (split_from 2 dots s) (split_from-HasPart 2 s)
      ∙ ap (λ t. dots ++ t) (rejoin-split_from 2 s)
      ∙ has_prefix-drop (x ∷ s) dots sep)
  | inr other ↦
      let (p, ps, e) = split_from-HasPart zero s in
      rw (other, e)
        (rejoin-first x p ps ∙ ap (λ t. x ∷ t) (sym (ap rejoin e) ∙ rejoin-split_from zero s))
]

last_brace :
    (s : Bytes)
    → contains_byte b'}' s ≡ true
    → contains_byte b'}' (trim_suffix b'}' s) ≡ false
    → s ≡ trim_suffix b'}' s ++ b'}' ∷ []
last_brace s h k = elim (trim_suffix-cases b'}' s) [
  | inl e ↦ e
  | inr e ↦ absurd (false≢true (sym k ∙ ap (contains_byte b'}') (sym e) ∙ h))
]

first_brace :
    (s : Bytes)
    → contains_byte b'{' s ≡ true
    → contains_byte b'{' (trim_suffix b'}' (trim_prefix b'{' s)) ≡ false
    → s ≡ b'{' ∷ trim_prefix b'{' s
unfolding trim_prefix contains_byte
first_brace [] h k = cc
first_brace (x ∷ s) h k = elim (Bool-cases (x == b'{')) [
  | inl same ↦ rw (same, (==_iff x b'{').0 same) refl
  | inr other ↦
      let k' : contains_byte b'{' (trim_suffix b'}' (x ∷ s)) ≡ false = rw other at k in
      absurd (false≢true (sym (no_brace (trim_suffix-cases b'}' (x ∷ s)) k') ∙ h))
]
  where
    no_brace :
        (x ∷ s ≡ trim_suffix b'}' (x ∷ s) ++ b'}' ∷ []) ⊎ (x ∷ s ≡ trim_suffix b'}' (x ∷ s))
        → contains_byte b'{' (trim_suffix b'}' (x ∷ s)) ≡ false
        → contains_byte b'{' (x ∷ s) ≡ false
    no_brace (inl e) f =
        ap (contains_byte b'{') e
        ∙ contains_byte-append b'{' (trim_suffix b'}' (x ∷ s)) (b'}' ∷ [])
        ∙ ap (λ b. b || false) f
    no_brace (inr e) f = ap (contains_byte b'{') e ∙ f

-- The pattern is "{", a number, "...", a number, "}".
pub IsRangeText : Bytes → Range → Type 0
IsRangeText pattern r =
    (first_hex : Bool) × (last_hex : Bool) × (pattern
      ≡ b'{' ∷ (r.first_text ++ dots ++ r.last_text) ++ b'}' ∷ [])
    × (parse_number r.first_text ≡ some (r.start, first_hex))
    × (parse_number r.last_text ≡ some (r.end, last_hex))
    × (r.hexadecimal ≡ (first_hex || last_hex))

-- A pattern with both braces of which what is left without them holds none.
in_braces :
    (pattern w : Bytes)
    → contains_byte b'{' pattern ≡ true
    → contains_byte b'}' pattern ≡ true
    → trim_suffix b'}' (trim_prefix b'{' pattern) ≡ w
    → contains_byte b'{' w ≡ false
    → contains_byte b'}' w ≡ false
    → pattern ≡ b'{' ∷ w ++ b'}' ∷ []
unfolding contains_byte
in_braces pattern w first last e no_first no_last =
    let opens = first_brace pattern first (ap (contains_byte b'{') e ∙ no_first) in
    let rest = trim_prefix b'{' pattern in
    let closes : rest ≡ trim_suffix b'}' rest ++ b'}' ∷ [] =
      last_brace rest (sym (ap (contains_byte b'}') opens) ∙ last)
        (ap (contains_byte b'}') e ∙ no_last) in
    opens ∙ ap (λ t. b'{' ∷ t) (closes ∙ ap (λ t. t ++ b'}' ∷ []) e)

-- Two numbers with dots between them have no brace.
lacks :
    (c : ℕ) (a b : Bytes) (u v : ℕ × Bool)
    → digit c ≡ none
    → contains_byte c dots ≡ false
    → parse_number a ≡ some u
    → parse_number b ≡ some v
    → contains_byte c (a ++ dots ++ b) ≡ false
lacks c a b u v h d e f =
    contains_byte-append c (a ++ dots) b
    ∙ rw
        (
          contains_byte-append c a dots,
          parse_number-lacks c u a h e,
          d,
          parse_number-lacks c v b h f,
        )
        refl

no_digit : (digit b'.' ≡ none) × (digit b'{' ≡ none) × (digit b'}' ≡ none)
unfolding digit
no_digit = (refl, refl, refl)

closes : (w : Bytes) → contains_byte b'}' (w ++ b'}' ∷ []) ≡ true
unfolding contains_byte
closes w = rw (contains_byte-append b'}' w (b'}' ∷ [])) (ground arith)

range_of-two :
    (r : Range) (first_hex last_hex : Bool)
    → parse_number r.first_text ≡ some (r.start, first_hex)
    → parse_number r.last_text ≡ some (r.end, last_hex)
    → r.hexadecimal ≡ (first_hex || last_hex)
    → range_of (r.first_text ∷ r.last_text ∷ []) ≡ some r
unfolding range_of Option.bind
range_of-two r first_hex last_hex e f hex = rw (e, f, ← hex) refl

-- `parseEllipsesRange` reads a pattern of that form.
pub IsRangeText-parse_bounds :
    (pattern : Bytes) (r : Range) → IsRangeText pattern r → parse_bounds pattern ≡ some r
unfolding IsRangeText parse_bounds trim_prefix contains_byte
IsRangeText-parse_bounds pattern r (first_hex, last_hex, form, e, f, hex) =
    let w = r.first_text ++ dots ++ r.last_text in
    let (dot, _, _) = no_digit in
    let two =
      split_from-two r.first_text r.last_text
        (parse_number-lacks b'.' (r.start, first_hex) r.first_text dot e)
        (parse_number-lacks b'.' (r.end, last_hex) r.last_text dot f) in
    rw (form, closes w, trim_suffix-append b'}' w, two) (range_of-two r first_hex last_hex e f hex)

parts_of :
    (pattern : Bytes) (parts : List Bytes) (r : Range)
    → contains_byte b'{' pattern ≡ true
    → contains_byte b'}' pattern ≡ true
    → split_from 0 dots (trim_suffix b'}' (trim_prefix b'{' pattern)) ≡ parts
    → range_of parts ≡ some r
    → IsRangeText pattern r
unfolding range_of IsRangeText Option.bind rejoin contains_byte
parts_of pattern [] r first last e h = cc
parts_of pattern (a ∷ []) r first last e h = cc
parts_of pattern (a ∷ b ∷ []) r first last e h = go (parse_number a) (parse_number b) refl refl h
  where
    w : Bytes
    w = a ++ dots ++ b

    text : trim_suffix b'}' (trim_prefix b'{' pattern) ≡ w
    text = sym (rejoin-split_from 0 (trim_suffix b'}' (trim_prefix b'{' pattern))) ∙ ap rejoin e

    go :
        (o u : Option (ℕ × Bool))
        → parse_number a ≡ o
        → parse_number b ≡ u
        → Option.bind o (λ (start, first_hex). Option.bind u (λ (end, last_hex). some (record {
          first_text = a;
          last_text = b;
          start = start;
          end = end;
          hexadecimal = first_hex || last_hex;
        })))
          ≡ some r
        → IsRangeText pattern r
    go none u f g k = cc
    go (some x) none f g k = cc
    go (some (m, x)) (some (n, y)) f g k =
        let same : record {
          first_text = a;
          last_text = b;
          start = m;
          end = n;
          hexadecimal = x || y;
        }
            ≡ r =
          cc in
        let (_, first_brace_none, last_brace_none) = no_digit in
        rw (← same) (
          x,
          y,
          in_braces pattern w first last text
              (lacks b'{' a b (m, x) (n, y) first_brace_none refl f g)
              (lacks b'}' a b (m, x) (n, y) last_brace_none refl f g),
          f,
          g,
          refl,
        )
parts_of pattern (a ∷ b ∷ c ∷ parts) r first last e h = cc

-- And it reads no other pattern.
pub parse_bounds-IsRangeText :
    (pattern : Bytes) (r : Range) → parse_bounds pattern ≡ some r → IsRangeText pattern r
unfolding parse_bounds
parse_bounds-IsRangeText pattern r e = elim (Bool-cases (contains_byte b'{' pattern)) [
  | inr none_open ↦ cc (rw none_open at e)
  | inl first ↦ elim (Bool-cases (contains_byte b'}' pattern)) [
    | inr none_close ↦ cc (rw (first, none_close) at e)
    | inl last ↦ parts_of pattern _ r first last refl (rw (first, last) at e)
  ]
]
