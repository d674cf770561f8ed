-- ===== src/Wildcard/Pattern.antt =====
-- wildcard/match.go: what a pattern means, independent of the search of `deepMatchRune`.
use silo_pkg.Prelude.{ℕ, ◌≡◌, Bool, true, false, List, [], ◌∷◌, map, ◌==◌, if◌then◌else◌}
use silo_pkg.Prelude.Bytes.{Bytes}

-- The three cases of the `switch pattern[p]`.
pub data Token : Type 0 where
  star any : Token
  lit : ℕ → Token

unfoldable pub token : ℕ → Token
token c = if c == b'*' then star else if c == b'?' then any else lit c

abbrev pub Pattern : Type 0
Pattern = List Token

-- Whether a token other than a star takes the byte x.
abbrev pub accepts : Token → ℕ → Bool
accepts star x = false
accepts any x = true
accepts (lit c) x = c == x

-- The texts of a pattern. In the simple mode a '?' that the text ends before takes all the rest.
pub data Matches (simple : Bool) : Pattern → Bytes → Type 0 where
  empty : Matches simple [] []
  byte :
      {t : Token} {x : ℕ} {p : Pattern} {s : Bytes}
      → accepts t x ≡ true
      → Matches simple p s
      → Matches simple (t ∷ p) (x ∷ s)
  leave : {p : Pattern} {s : Bytes} → Matches simple p s → Matches simple (star ∷ p) s
  take :
      {x : ℕ} {p : Pattern} {s : Bytes}
      → Matches simple (star ∷ p) s
      → Matches simple (star ∷ p) (x ∷ s)
  cut : {p : Pattern} → simple ≡ true → Matches simple (any ∷ p) []

-- `w` is a suffix of `s`.
pub data Suffix (w : Bytes) : Bytes → Type 0 where
  all : Suffix w w
  skip : {x : ℕ} {s : Bytes} → Suffix w s → Suffix w (x ∷ s)

abbrev pub meaning : Bytes → Pattern
meaning = map token
