-- ===== src/Wildcard/Search.antt =====
-- wildcard/match.go: the loop of `deepMatchRune` with its one backtracking point answers whether
-- the pattern matches, in both modes, and ends within its fuel.
use silo_pkg.Prelude.{
  ℕ, zero, suc, ◌+◌, ◌*◌, ◌≤◌, ◌<◌, ◌≡◌, refl, Bool, true, false, ◌&&◌, [], ◌∷◌, arith, ◌==◌,
  Option, none, some, length, Bool-cases, inl, inr, ◌↔◌,
}
use silo_pkg.Prelude.Bytes.{Bytes}
use silo_pkg.Wildcard.Pattern.{
  Token, star, any, lit, token, Pattern, accepts, Matches, empty, byte, leave, take, cut, meaning,
  Suffix, skip,
}
use silo_pkg.Wildcard.Suffixes.{
  Exhausts, Exhausts-back, Exhausts→Matches, Onward, here, next, star_of_suffix, star_widen,
  suffix_of_star, must_take, star_at_end, star_all, IsOne, byte_inv, Suffix-tail,
}
use silo_pkg.Wildcard.Probe.{probe-true, probe-false}
use silo_pkg.Wildcard.Loop.{
  Back, Round, retry, probe, at_star, at_any, at_byte, dispatch, loop, deep_match_rune,
}

-- The run ended, and its answer is right about G.
abbrev pub Answers : Type 0 → Option Bool → Type 0
Answers G none = ⊥
Answers G (some true) = G
Answers G (some false) = ¬ G

-- A match of the pattern behind the last '*' that has not been passed: it begins at a suffix of the
-- text from `mark` on, and comes by the current place in the pattern at a suffix of the current text.
record Placed (simple : Bool) (bp bs p s : Bytes) : Type 0 where
  start : Bytes
  rest : Bytes
  starts : Suffix start bs
  moves : Onward (meaning bp) start (meaning p) rest
  lies : Suffix rest s
  fits : Matches simple (meaning p) rest

module _ (G : Type 0) (k : ℕ) (simple : Bool) where
  -- What the backtracking point means; `m` bounds the text behind it.
  abbrev Kept : ℕ → Bytes → Bytes → Back → Type 0
  Kept m s p none = G → Matches simple (meaning p) s
  Kept m s p (some (bp, bs)) =
      (G ↔ Matches simple (star ∷ meaning bp) bs)
      × (Matches simple (meaning bp) bs → Matches simple (meaning p) s)
      × (G → Placed simple bp bs p s)
      × (simple ≡ true → (v : Bytes) → Suffix v bs → ¬ Exhausts (meaning bp) v)
      × (length bs ≤ m)
      × (length bp < k)

  record Inv (f m : ℕ) (s p : Bytes) (back : Back) : Type 0 where
    now : Matches simple (meaning p) s → G
    kept : Kept m s p back
    text_bound : length s ≤ m
    pattern_bound : length p < k
    fuel : m * k + length p < f

  abbrev Continues : ℕ → Round → Type 0
  Continues f next_round =
      (m : ℕ) (s p : Bytes) (back : Back) → Inv f m s p back → Answers G (next_round s p back)

  -- A fresh start behind a '*', at the text s.
  Inv-restart :
      {f m : ℕ} {s p : Bytes}
      → G ↔ Matches simple (star ∷ meaning p) s
      → (simple ≡ true → (v : Bytes) → Suffix v s → ¬ Exhausts (meaning p) v)
      → length s ≤ m
      → length p < k
      → m * k + length p < f
      → Inv f m s p (some (p, s))
  Inv-restart {m} {s} {p} e no_cut hs hp hf = record {
    now = λ d. e.1 (leave d);
    kept = (e, λ d. d, placed, no_cut, hs, hp);
    text_bound = hs;
    pattern_bound = hp;
    fuel = hf;
  }
    where
      placed : G → Placed simple p s p s
      placed g =
          let (w, h, d) = suffix_of_star (e.0 g) in
          record { start = w; rest = w; starts = h; moves = here; lies = h; fits = d }

  retry-Answers :
      {f : ℕ} {s p : Bytes} (m : ℕ) (back : Back) (next_round : Round)
      → Continues f next_round
      → Inv (suc f) m s p back
      → ¬ Matches simple (meaning p) s
      → Answers G (retry back next_round)
  unfolding retry
  retry-Answers m none next_round ih i stuck = λ g. stuck (i.kept g)
  retry-Answers m (some (bp, [])) next_round ih i stuck =
      λ g. stuck (i.kept.1 (star_at_end (i.kept.0.0 g)))
  retry-Answers zero (some (bp, x ∷ bs)) next_round ih i stuck = absurd (omega (arith, i.kept.4))
  retry-Answers (suc m) (some (bp, x ∷ bs)) next_round ih i stuck =
      let (e, down, _, no_cut, hs, hp) = i.kept in
      ih m bs bp (some (bp, bs)) (
        Inv-restart (λ g. must_take (e.0 g) (λ d. stuck (down d)), λ d. e.1 (take d))
          (λ is_simple v h. no_cut is_simple v (skip h)) (omega arith) (omega arith) (omega arith))

  -- One token of the pattern takes one byte of the text.
  Kept-byte :
      (m c x : ℕ) (s p : Bytes) (back : Back)
      → IsOne (token c)
      → Kept m (x ∷ s) (c ∷ p) back
      → Kept m s p back
  Kept-byte m c x s p none one h = λ g. (byte_inv one (h g)).1
  Kept-byte m c x s p (some (bp, bs)) one (e, down, placed, no_cut, hs, hp) = (
    e,
    λ d. (byte_inv one (down d)).1,
    λ g. forward (token c) one (placed g).fits (placed g).moves (placed g).starts (placed g).lies,
    no_cut,
    hs,
    hp,
  )
    where
      forward :
          {start : Bytes} {rest : Bytes} (t : Token)
          → IsOne t
          → Matches simple (t ∷ meaning p) rest
          → Onward (meaning bp) start (t ∷ meaning p) rest
          → Suffix start bs
          → Suffix rest (x ∷ s)
          → Placed simple bp bs p s
      forward {start} t o (byte {x = y} {s = w} a d) onward st lies = record {
        start = start;
        rest = w;
        starts = st;
        moves = next onward a;
        lies = Suffix-tail y x lies;
        fits = d;
      }
      forward {start} t o (cut is_simple) onward st lies =
          absurd (no_cut is_simple start st (Exhausts-back onward tt))
      forward t o (leave d) onward st lies = elim o [ ]
      forward t o (take d) onward st lies = elim o [ ]

  Inv-byte :
      {f m : ℕ} {s p : Bytes} {back : Back} (c x : ℕ)
      → Inv (suc f) m (x ∷ s) (c ∷ p) back
      → IsOne (token c)
      → accepts (token c) x ≡ true
      → Inv f m s p back
  Inv-byte {m} {s} {p} {back} c x i one a = record {
    now = λ d. i.now (byte a d);
    kept = Kept-byte m c x s p back one i.kept;
    text_bound = omega arith;
    pattern_bound = omega arith;
    fuel = omega arith;
  }

  star_now :
      {f m : ℕ} {s p : Bytes} {back : Back} (c : ℕ)
      → token c ≡ star
      → Inv f m s (c ∷ p) back
      → Matches simple (star ∷ meaning p) s
      → G
  star_now {s} {p} c e i d = i.now (rw e d)

  star_later :
      (m c : ℕ) (s p : Bytes) (back : Back)
      → token c ≡ star
      → Kept m s (c ∷ p) back
      → G
      → Matches simple (star ∷ meaning p) s
  star_later m c s p none e h g = rw e at (h g)
  star_later m c s p (some (bp, bs)) e h g =
      let here_at = h.2 g in star_widen here_at.lies (rw e at here_at.fits)

  probe-no_cut :
      (s p : Bytes)
      → (simple && probe s [] p) ≡ false
      → simple ≡ true
      → (v : Bytes) → Suffix v s
      → ¬ Exhausts (meaning p) v
  probe-no_cut s p h is_simple v = probe-false s p v (ground arith)

  probe-Matches :
      (s p : Bytes) → (simple && probe s [] p) ≡ true → Matches simple (star ∷ meaning p) s
  probe-Matches s p h =
      let is_simple : simple ≡ true = ground arith in
      let (v, d, e) = probe-true s p (ground arith) in
      rw is_simple (star_of_suffix d (Exhausts→Matches (meaning p) v e))

  at_star-Answers :
      {f : ℕ} {s : Bytes} {back : Back} (m c : ℕ) (p : Bytes) (next_round : Round)
      → Continues f next_round
      → token c ≡ star
      → Inv (suc f) m s (c ∷ p) back
      → Answers G (at_star simple s p next_round)
  unfolding at_star
  at_star-Answers {s} m c [] next_round ih e i = star_now c e i (star_all s)
  at_star-Answers {s} {back} m c (d ∷ p) next_round ih e i =
      elim (Bool-cases (simple && probe s [] (d ∷ p))) [
        | inl cuts ↦ rw cuts (star_now c e i (probe-Matches s (d ∷ p) cuts))
        | inr none_cut ↦ rw none_cut (
            ih m s (d ∷ p) (some (d ∷ p, s)) (
              Inv-restart (star_later m c s (d ∷ p) back e i.kept, star_now c e i)
                (probe-no_cut s (d ∷ p) none_cut) i.text_bound (omega (arith, i.pattern_bound))
                (omega (arith, i.fuel))))
      ]

  not_cut : {p : Pattern} → simple ≡ false → ¬ Matches simple (any ∷ p) []
  not_cut no_simple (cut is_simple) = cc

  at_any-Answers :
      {f : ℕ} (s : Bytes) (back : Back) (m c : ℕ) (p : Bytes) (next_round : Round)
      → Continues f next_round
      → token c ≡ any
      → Inv (suc f) m s (c ∷ p) back
      → Answers G (at_any simple s p back next_round)
  unfolding at_any
  at_any-Answers [] back m c p next_round ih e i = elim (Bool-cases simple) [
    | inl is_simple ↦ rw is_simple (i.now (rw e (cut is_simple)))
    | inr no_simple ↦ rw no_simple (retry-Answers m back next_round ih i (rw e (not_cut no_simple)))
  ]
  at_any-Answers (x ∷ s) back m c p next_round ih e i =
      ih m s p back (Inv-byte c x i (rw e tt) (rw e refl))

  at_byte-Answers :
      {f : ℕ} (s : Bytes) (back : Back) (m c b : ℕ) (p : Bytes) (next_round : Round)
      → Continues f next_round
      → token c ≡ lit b
      → Inv (suc f) m s (c ∷ p) back
      → Answers G (at_byte b s p back next_round)
  unfolding at_byte
  at_byte-Answers [] back m c b p next_round ih e i =
      retry-Answers m back next_round ih i (rw e (λ d. elim d [ ]))
  at_byte-Answers (x ∷ s) back m c b p next_round ih e i = elim (Bool-cases (b == x)) [
    | inl same ↦ rw same (ih m s p back (Inv-byte c x i (rw e tt) (rw e same)))
    | inr differs ↦
        rw differs
          (retry-Answers m back next_round ih i (rw e (λ d. cc ((byte_inv tt d).0, differs))))
  ]

  dispatch-Answers :
      {f : ℕ} (t : Token) (s : Bytes) (back : Back) (m c : ℕ) (p : Bytes) (next_round : Round)
      → Continues f next_round
      → token c ≡ t
      → Inv (suc f) m s (c ∷ p) back
      → Answers G (dispatch simple t s p back next_round)
  unfolding dispatch
  dispatch-Answers star s back m c p next_round ih e i = at_star-Answers m c p next_round ih e i
  dispatch-Answers any s back m c p next_round ih e i =
      at_any-Answers s back m c p next_round ih e i
  dispatch-Answers (lit b) s back m c p next_round ih e i =
      at_byte-Answers s back m c b p next_round ih e i

  loop-Answers : (f : ℕ) → Continues f (loop f simple)
  unfolding loop
  loop-Answers zero m s p back i = absurd (omega (arith, i.fuel))
  loop-Answers (suc f) m [] [] back i = i.now empty
  loop-Answers (suc f) m (x ∷ s) [] back i =
      retry-Answers m back (loop f simple) (loop-Answers f) i (λ d. elim d [ ])
  loop-Answers (suc f) m [] (c ∷ p) back i =
      dispatch-Answers (token c) [] back m c p (loop f simple) (loop-Answers f) refl i
  loop-Answers (suc f) m (x ∷ s) (c ∷ p) back i =
      dispatch-Answers (token c) (x ∷ s) back m c p (loop f simple) (loop-Answers f) refl i

pub deep_match_rune-Answers :
    (str pattern : Bytes) (simple : Bool)
    → Answers (Matches simple (meaning pattern) str) (deep_match_rune str pattern simple)
unfolding deep_match_rune
deep_match_rune-Answers str pattern simple =
    loop-Answers (Matches simple (meaning pattern) str) (length pattern + 1) simple _ (length str)
      str pattern none
      (record {
        now = λ d. d;
        kept = λ d. d;
        text_bound = omega arith;
        pattern_bound = omega arith;
        fuel = grind arith;
      })
