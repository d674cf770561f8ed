-- ===== src/Wildcard/Suffixes.antt =====
-- wildcard/match.go: how a '*' splits the text, for the matching relation of `Pattern`.
use silo_pkg.Prelude.{ℕ, ◌≡◌, refl, Bool, true, [], ◌∷◌}
use silo_pkg.Prelude.Bytes.{Bytes}
use silo_pkg.Wildcard.Pattern.{
  Token, star, any, lit, Pattern, accepts, Matches, empty, byte, leave, take, cut, Suffix, all,
  skip,
}

pub Suffix-drop : (y : ℕ) {w s : Bytes} → Suffix (y ∷ w) s → Suffix w s
Suffix-drop y all = skip all
Suffix-drop y (skip d) = skip (Suffix-drop y d)

pub Suffix-tail : (y x : ℕ) {w s : Bytes} → Suffix (y ∷ w) (x ∷ s) → Suffix w s
Suffix-tail y x all = all
Suffix-tail y x (skip d) = Suffix-drop y d

pub Suffix-nil : (s : Bytes) → Suffix [] s
Suffix-nil [] = all
Suffix-nil (x ∷ s) = skip (Suffix-nil s)

module _ {simple : Bool} {p : Pattern} where
  pub star_of_suffix : {w s : Bytes} → Suffix w s → Matches simple p w → Matches simple (star ∷ p) s
  star_of_suffix all d = leave d
  star_of_suffix (skip h) d = take (star_of_suffix h d)

  pub star_widen :
      {w s : Bytes} → Suffix w s → Matches simple (star ∷ p) w → Matches simple (star ∷ p) s
  star_widen all d = d
  star_widen (skip h) d = take (star_widen h d)

  pub suffix_of_star :
      {s : Bytes} → Matches simple (star ∷ p) s → (w : Bytes) × Suffix w s × Matches simple p w
  suffix_of_star {s} (leave d) = (s, all, d)
  suffix_of_star (byte h d) = cc
  suffix_of_star (take d) = let (w, h, e) = suffix_of_star d in (w, skip h, e)

  pub must_take :
      {x : ℕ} {s : Bytes}
      → Matches simple (star ∷ p) (x ∷ s)
      → ¬ Matches simple p (x ∷ s)
      → Matches simple (star ∷ p) s
  must_take (leave d) n = absurd (n d)
  must_take (byte h d) n = cc
  must_take (take d) n = d

  pub star_at_end : Matches simple (star ∷ p) [] → Matches simple p []
  star_at_end (leave d) = d

pub star_all : {simple : Bool} (s : Bytes) → Matches simple (star ∷ []) s
star_all [] = leave empty
star_all (x ∷ s) = take (star_all s)

-- `t` is not a star.
abbrev pub IsOne : Token → Type 0
IsOne star = ⊥
IsOne any = Unit {0}
IsOne (lit c) = Unit {0}

pub byte_inv :
    {simple : Bool} {t : Token} {x : ℕ} {p : Pattern} {s : Bytes}
    → IsOne t
    → Matches simple (t ∷ p) (x ∷ s)
    → (accepts t x ≡ true) × Matches simple p s
byte_inv o (byte h d) = (h, d)
byte_inv o (leave d) = elim o [ ]
byte_inv o (take d) = elim o [ ]

-- Tokens and bytes that match one by one lead from the first pair to the second.
pub data Onward (bp : Pattern) (v : Bytes) : Pattern → Bytes → Type 0 where
  here : Onward bp v bp v
  next :
      {t : Token} {x : ℕ} {p : Pattern} {w : Bytes}
      → Onward bp v (t ∷ p) (x ∷ w)
      → accepts t x ≡ true
      → Onward bp v p w

-- Byte by byte the pattern takes all of the text, and then stands at a '?'.
abbrev pub Exhausts : Pattern → Bytes → Type 0
Exhausts [] v = ⊥
Exhausts (any ∷ p) [] = Unit {0}
Exhausts (star ∷ p) [] = ⊥
Exhausts (lit c ∷ p) [] = ⊥
Exhausts (t ∷ p) (x ∷ v) = (accepts t x ≡ true) × Exhausts p v

Exhausts-step :
    (t : Token) (x : ℕ) (p : Pattern) (w : Bytes)
    → accepts t x ≡ true
    → Exhausts p w
    → Exhausts (t ∷ p) (x ∷ w)
Exhausts-step star x p w h e = cc
Exhausts-step any x p w h e = (h, e)
Exhausts-step (lit c) x p w h e = (h, e)

pub Exhausts-back :
    {bp : Pattern} {v : Bytes} {p : Pattern} {w : Bytes}
    → Onward bp v p w
    → Exhausts p w
    → Exhausts bp v
Exhausts-back here e = e
Exhausts-back (next {t} {x} {p} {w} o h) e = Exhausts-back o (Exhausts-step t x p w h e)

pub Exhausts→Matches : (p : Pattern) (v : Bytes) → Exhausts p v → Matches true p v
Exhausts→Matches [] v e = absurd e
Exhausts→Matches (any ∷ p) [] e = cut refl
Exhausts→Matches (star ∷ p) [] e = absurd e
Exhausts→Matches (lit c ∷ p) [] e = absurd e
Exhausts→Matches (star ∷ p) (x ∷ v) e = byte e.0 (Exhausts→Matches p v e.1)
Exhausts→Matches (any ∷ p) (x ∷ v) e = byte e.0 (Exhausts→Matches p v e.1)
Exhausts→Matches (lit c ∷ p) (x ∷ v) e = byte e.0 (Exhausts→Matches p v e.1)
