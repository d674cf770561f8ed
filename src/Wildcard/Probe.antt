-- ===== src/Wildcard/Probe.antt =====
-- wildcard/match.go: the look-ahead of the simple mode at a '*' finds exactly the suffixes of the
-- text that the star-free segment uses up before a '?'.
use silo_pkg.Prelude.{
  ℕ, ◌-◌, ◌≡◌, true, false, ◌&&◌, [], List, ◌∷◌, ◌++◌, arith, ◌==◌, length, drop, length-append,
  append-nil, append_assoc, leb, Bool-cases, inl, inr,
}
use silo_pkg.Prelude.Bytes.{Bytes}
use silo_pkg.Wildcard.Pattern.{Token, star, any, lit, token, accepts, meaning, Suffix}
use silo_pkg.Wildcard.Suffixes.{Exhausts}
use silo_pkg.Wildcard.Fixed.{
  NoStar, Fits, accepts_not_star, length-Fits, Fits-snoc, NoStar-snoc, Suffix-drop_self,
  length-Suffix, match_fixed_suffix-Fits, Fits-match_fixed_suffix,
}
use silo_pkg.Wildcard.Loop.{match_fixed_suffix, probe}

Exhausts-here :
    (seg : Bytes) (c : ℕ) (p v : Bytes)
    → (c == b'?') ≡ true
    → Fits seg v
    → Exhausts (meaning (seg ++ c ∷ p)) v
unfolding token
Exhausts-here [] c p [] q f = ground arith
Exhausts-here [] c p (x ∷ v) q f = absurd f
Exhausts-here (d ∷ seg) c p [] q f = absurd f
Exhausts-here (d ∷ seg) c p (x ∷ v) q f = cons (token d) (Exhausts-here seg c p v q f.1) f.0
  where
    cons :
        (t : Token)
        → Exhausts (meaning (seg ++ c ∷ p)) v
        → accepts t x ≡ true
        → Exhausts (t ∷ meaning (seg ++ c ∷ p)) (x ∷ v)
    cons star e a = (a, e)
    cons any e a = (a, e)
    cons (lit b) e a = (a, e)

abbrev Found : Bytes → Bytes → Type 0
Found s p = (v : Bytes) × Suffix v s × Exhausts (meaning p) v

Found-here :
    (s seg : Bytes) (c : ℕ) (p : Bytes)
    → NoStar seg
    → leb (length seg) (length s) ≡ true
    → (c == b'?' && match_fixed_suffix s seg) ≡ true
    → Found s (seg ++ c ∷ p)
Found-here s seg c p n le q =
    let fits = match_fixed_suffix-Fits s seg n (ground arith) (ground arith) in
    (
      drop (length s - length seg) s,
      Suffix-drop_self _ s,
      Exhausts-here seg c p _ (ground arith) fits,
    )

probe-Found : (s seg p : Bytes) → NoStar seg → probe s seg p ≡ true → Found s (seg ++ p)
unfolding probe
probe-Found s seg [] n h = cc
probe-Found s seg (c ∷ p) n h = elim (Bool-cases (c == b'?' && match_fixed_suffix s seg)) [
  | inl q ↦ Found-here s seg c p n (ground arith) q
  | inr q ↦
      rw append_assoc at
        (probe-Found s (seg ++ c ∷ []) p (NoStar-snoc seg c n (ground arith)) (ground arith))
]

Exhausts-byte :
    (t : Token) (x : ℕ) (p : List Token) (w : Bytes)
    → Exhausts (t ∷ p) (x ∷ w)
    → (accepts t x ≡ true) × Exhausts p w
Exhausts-byte star x p w e = e
Exhausts-byte any x p w e = e
Exhausts-byte (lit b) x p w e = e

Exhausts-end : (c : ℕ) (p : Bytes) → Exhausts (meaning (c ∷ p)) [] → (c == b'?') ≡ true
unfolding token
Exhausts-end c p e = ground arith

-- No suffix of the text is used up before a '?', if the look-ahead says so.
probe_none :
    (s seg p v w : Bytes)
    → probe s seg p ≡ false
    → Fits seg v
    → Suffix (v ++ w) s
    → ¬ Exhausts (meaning p) w
unfolding probe
probe_none s seg [] v w h f d e = e
probe_none s seg (c ∷ p) v [] h f d e = ground (
  arith,
  Exhausts-end c p e,
  length-Suffix d,
  length-Fits seg v f,
  length-append v [],
  Fits-match_fixed_suffix seg (rw append-nil at d) f,
)
probe_none s seg (c ∷ p) v (x ∷ w) h f d e =
    let (a, e') = Exhausts-byte (token c) x (meaning p) w e in
    probe_none s (seg ++ c ∷ []) p (v ++ x ∷ []) w
      (ground (
        arith,
        accepts_not_star c x a,
        length-Suffix d,
        length-Fits seg v f,
        length-append v (x ∷ w),
      ))
      (Fits-snoc seg v c x f a) (rw append_assoc d) e'

pub probe-true : (s p : Bytes) → probe s [] p ≡ true → Found s p
probe-true s p h = probe-Found s [] p tt h

pub probe-false : (s p v : Bytes) → probe s [] p ≡ false → Suffix v s → ¬ Exhausts (meaning p) v
probe-false s p v h d e = probe_none s [] p [] v h tt d e
