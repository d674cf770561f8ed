-- ===== src/Wildcard/Prefix.antt =====
-- wildcard/match.go: what `MatchAsPatternPrefix` answers.
use silo_pkg.Prelude.{ℕ, ◌≡◌, refl, true, false, [], ◌∷◌, ◌++◌, arith, ◌↔◌, ==_refl}
use silo_pkg.Prelude.Bytes.{Bytes}
use silo_pkg.Wildcard.Pattern.{
  Token, star, any, lit, token, Pattern, Matches, empty, byte, leave, take, meaning,
}
use silo_pkg.Wildcard.Suffixes.{byte_inv}
use silo_pkg.Wildcard.Loop.{match_as_pattern_prefix}

-- Every pattern has a text.
some_text : (p : Pattern) → (s : Bytes) × Matches false p s
some_text [] = ([], empty)
some_text (star ∷ p) = let (s, d) = some_text p in (s, leave d)
some_text (any ∷ p) = let (s, d) = some_text p in (0 ∷ s, byte refl d)
some_text (lit c ∷ p) = let (s, d) = some_text p in (c ∷ s, byte (==_refl c) d)

star_over :
    (p : Pattern) (s ext : Bytes) → Matches false p ext → Matches false (star ∷ p) (s ++ ext)
star_over p [] ext d = leave d
star_over p (x ∷ s) ext d = take (star_over p s ext d)

abbrev Extends : Pattern → Bytes → Type 0
Extends p text = (ext : Bytes) × Matches false p (text ++ ext)

prefix_token :
    (t : Token) (c x : ℕ) (p s : Bytes)
    → token c ≡ t
    → (match_as_pattern_prefix p s ≡ true → Extends (meaning p) s)
    → match_as_pattern_prefix (c ∷ p) (x ∷ s) ≡ true
    → Extends (t ∷ meaning p) (x ∷ s)
unfolding match_as_pattern_prefix token
prefix_token star c x p s e ih h =
    let (ext, d) = some_text (meaning p) in (ext, star_over (meaning p) (x ∷ s) ext d)
prefix_token any c x p s e ih h = let (ext, d) = ih (ground arith) in (ext, byte refl d)
prefix_token (lit b) c x p s e ih h =
    let (ext, d) = ih (ground arith) in (ext, byte (ground arith) d)

prefix→Extends : (p s : Bytes) → match_as_pattern_prefix p s ≡ true → Extends (meaning p) s
unfolding match_as_pattern_prefix
prefix→Extends [] [] h = ([], empty)
prefix→Extends [] (x ∷ s) h = cc
prefix→Extends (c ∷ p) [] h = some_text (meaning (c ∷ p))
prefix→Extends (c ∷ p) (x ∷ s) h = prefix_token (token c) c x p s refl (prefix→Extends p s) h

extends_token :
    (t : Token) (c x : ℕ) (p s ext : Bytes)
    → token c ≡ t
    → (Matches false (meaning p) (s ++ ext) → match_as_pattern_prefix p s ≡ true)
    → Matches false (t ∷ meaning p) (x ∷ (s ++ ext))
    → match_as_pattern_prefix (c ∷ p) (x ∷ s) ≡ true
unfolding match_as_pattern_prefix token
extends_token star c x p s ext e ih d = ground arith
extends_token any c x p s ext e ih d = let h = ih (byte_inv tt d).1 in ground arith
extends_token (lit b) c x p s ext e ih d =
    let (a, d') = byte_inv tt d in let h = ih d' in ground arith

Extends→prefix :
    (p s ext : Bytes) → Matches false (meaning p) (s ++ ext) → match_as_pattern_prefix p s ≡ true
unfolding match_as_pattern_prefix
Extends→prefix [] [] ext d = refl
Extends→prefix [] (x ∷ s) ext d = elim d [ ]
Extends→prefix (c ∷ p) [] ext d = refl
Extends→prefix (c ∷ p) (x ∷ s) ext d =
    extends_token (token c) c x p s ext refl (Extends→prefix p s ext) d

-- `MatchAsPatternPrefix` answers true exactly if the text can be continued to a name that the
-- pattern matches.
pub match_as_pattern_prefix_iff :
    (pattern text : Bytes)
    → (match_as_pattern_prefix pattern text ≡ true)
      ↔ ((ext : Bytes) × Matches false (meaning pattern) (text ++ ext))
match_as_pattern_prefix_iff pattern text =
    (prefix→Extends pattern text, λ h. Extends→prefix pattern text h.0 h.1)
