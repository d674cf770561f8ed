-- ===== src/Wildcard/Correct.antt =====
-- wildcard/match.go: what `Match`, `MatchSimple`, `Has` and `MatchAsPatternPrefix` answer.
use silo_pkg.Prelude.{
  ℕ, ◌≡◌, refl, sym, ap₂, Bool, true, false, [], ◌∷◌, arith, Option, none, some, Bool-cases, inl,
  inr, ◌↔◌, Bool-ext, ==_iff, ==_refl,
}
use silo_pkg.Prelude.Bytes.{Bytes, eqb, eqb_iff, eqb→eq}
use silo_pkg.Wildcard.Pattern.{lit, token, Pattern, Matches, empty, byte, leave, take, cut, meaning}
use silo_pkg.Wildcard.Suffixes.{star_all, byte_inv}
use silo_pkg.Wildcard.Search.{Answers, deep_match_rune-Answers}
use silo_pkg.Wildcard.Loop.{star_only, match_text, match_simple, has}

Answers-empty :
    (simple : Bool) (name : Bytes) → Answers (Matches simple [] name) (some (eqb name []))
unfolding eqb
Answers-empty simple [] = empty
Answers-empty simple (x ∷ name) = λ d. elim d [ ]

answers_star :
    (simple : Bool) (pattern name : Bytes)
    → eqb pattern star_only ≡ true
    → Matches simple (meaning pattern) name
unfolding token
answers_star simple pattern name h = rw (eqb→eq pattern star_only h) (star_all name)

match_text-Answers :
    (pattern name : Bytes)
    → Answers (Matches false (meaning pattern) name) (match_text pattern name)
unfolding match_text
match_text-Answers [] name = Answers-empty false name
match_text-Answers (c ∷ p) name = elim (Bool-cases (eqb (c ∷ p) star_only)) [
  | inl e ↦ rw e (answers_star false (c ∷ p) name e)
  | inr e ↦ rw e (deep_match_rune-Answers name (c ∷ p) false)
]

match_simple-Answers :
    (pattern name : Bytes)
    → Answers (Matches true (meaning pattern) name) (match_simple pattern name)
unfolding match_simple
match_simple-Answers [] name = Answers-empty true name
match_simple-Answers (c ∷ p) name = elim (Bool-cases (eqb (c ∷ p) star_only)) [
  | inl e ↦ rw e (answers_star true (c ∷ p) name e)
  | inr e ↦ rw e (deep_match_rune-Answers name (c ∷ p) true)
]

-- The answer of a run that ended.
unfoldable pub answer : Option Bool → Bool
answer none = false
answer (some b) = b

Answers-run :
    {G : Type 0} (r : Option Bool) → Answers G r → (r ≡ some (answer r)) × ((answer r ≡ true) ↔ G)
unfolding answer
Answers-run none h = absurd h
Answers-run (some true) h = (refl, (λ _. h, λ _. refl))
Answers-run (some false) h = (refl, (λ e. cc, λ g. absurd (h g)))

-- `wildcard.Match` and `wildcard.MatchSimple` as their callers see them.
unfoldable pub matches : Bytes → Bytes → Bool
unfolding answer match_text
matches pattern name = answer (match_text pattern name)

unfoldable pub matches_simple : Bytes → Bytes → Bool
unfolding answer match_simple
matches_simple pattern name = answer (match_simple pattern name)

-- For every pattern and name the loop of `Match` ends within its fuel, and its answer is true exactly
-- if the pattern, read as tokens, matches the whole name.
pub matches_iff :
    (pattern name : Bytes)
    → (match_text pattern name ≡ some (matches pattern name))
      × ((matches pattern name ≡ true) ↔ Matches false (meaning pattern) name)
unfolding matches
matches_iff pattern name = Answers-run (match_text pattern name) (match_text-Answers pattern name)

-- For every pattern and name the loop of `MatchSimple` ends within its fuel, and its answer is true
-- exactly if the pattern matches the name, where a '?' that stands behind the end of the name takes
-- the rest of the pattern with it.
pub matches_simple_iff :
    (pattern name : Bytes)
    → (match_simple pattern name ≡ some (matches_simple pattern name))
      × ((matches_simple pattern name ≡ true) ↔ Matches true (meaning pattern) name)
unfolding matches_simple
matches_simple_iff pattern name =
    Answers-run (match_simple pattern name) (match_simple-Answers pattern name)

to_simple : {p : Pattern} {s : Bytes} → Matches false p s → Matches true p s
to_simple empty = empty
to_simple (byte a d) = byte a (to_simple d)
to_simple (leave d) = leave (to_simple d)
to_simple (take d) = take (to_simple d)
to_simple (cut e) = cut refl

-- Every name that `Match` accepts for a pattern is accepted by `MatchSimple`.
matches-matches_simple :
    (pattern name : Bytes) → matches pattern name ≡ true → matches_simple pattern name ≡ true
matches-matches_simple pattern name h =
    (matches_simple_iff pattern name).1.1 (to_simple ((matches_iff pattern name).1.0 h))

token-plain : (c : ℕ) (p : Bytes) → has (c ∷ p) ≡ false → (token c ≡ lit c) × (has p ≡ false)
unfolding has token
token-plain c p h = (ground arith, ground arith)

Matches_self : (p : Bytes) → has p ≡ false → Matches false (meaning p) p
Matches_self [] h = empty
Matches_self (c ∷ p) h =
    let (e, h') = token-plain c p h in rw e (byte (==_refl c) (Matches_self p h'))

Matches_only : (p s : Bytes) → has p ≡ false → Matches false (meaning p) s → s ≡ p
Matches_only [] s h empty = refl
Matches_only (c ∷ p) [] h d = let (e, h') = token-plain c p h in elim (rw e at d) [ ]
Matches_only (c ∷ p) (x ∷ s) h d =
    let (e, h') = token-plain c p h in
    let (a, d') = byte_inv tt (rw e at d) in
    ap₂ ◌∷◌ (sym ((==_iff c x).0 a)) (Matches_only p s h' d')

-- A pattern in which `Has` finds no wildcard matches its own text and nothing else.
pub matches_plain :
    (pattern name : Bytes) → has pattern ≡ false → matches pattern name ≡ eqb name pattern
matches_plain pattern name h =
    Bool-ext _ _
      (λ m.
        (eqb_iff name pattern).1 (Matches_only pattern name h ((matches_iff pattern name).1.0 m)))
      (λ e. (matches_iff pattern name).1.1 (rw (eqb→eq name pattern e) (Matches_self pattern h)))
