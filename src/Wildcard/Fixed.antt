-- ===== src/Wildcard/Fixed.antt =====
-- wildcard/match.go: `matchFixedSuffix` compares a star-free pattern with the end of the text.
use silo_pkg.Prelude.{
  ℕ, zero, suc, ◌-◌, ◌≤◌, ◌≡◌, refl, ap, true, false, ◌&&◌, ◌||◌, [], ◌∷◌, ◌++◌, arith, ◌==◌,
  length, drop, &&_split,
}
use silo_pkg.Prelude.Bytes.{Bytes}
use silo_pkg.Wildcard.Pattern.{token, accepts, Suffix, all, skip}
use silo_pkg.Wildcard.Loop.{at, match_fixed_suffix}
use silo_pkg.Wildcard.Loop

abbrev pub NoStar : Bytes → Type 0
NoStar [] = Unit {0}
NoStar (c ∷ seg) = ((c == b'*') ≡ false) × NoStar seg

-- `seg` takes `v` byte by byte.
abbrev pub Fits : Bytes → Bytes → Type 0
Fits [] [] = Unit {0}
Fits [] (x ∷ v) = ⊥
Fits (c ∷ seg) [] = ⊥
Fits (c ∷ seg) (x ∷ v) = (accepts (token c) x ≡ true) × Fits seg v

pub accepts-token : (c x : ℕ) → (c == b'*') ≡ false → accepts (token c) x ≡ (c == b'?' || c == x)
unfolding token
accepts-token c x h = ground arith

pub accepts_not_star : (c x : ℕ) → accepts (token c) x ≡ true → (c == b'*') ≡ false
unfolding token
accepts_not_star c x h = ground arith

pub length-Fits : (seg v : Bytes) → Fits seg v → length v ≡ length seg
length-Fits [] [] h = refl
length-Fits [] (x ∷ v) h = absurd h
length-Fits (c ∷ seg) [] h = absurd h
length-Fits (c ∷ seg) (x ∷ v) h = ap suc (length-Fits seg v h.1)

pub Fits-NoStar : (seg v : Bytes) → Fits seg v → NoStar seg
Fits-NoStar [] v h = tt
Fits-NoStar (c ∷ seg) [] h = absurd h
Fits-NoStar (c ∷ seg) (x ∷ v) h = (accepts_not_star c x h.0, Fits-NoStar seg v h.1)

pub Fits-snoc :
    (seg v : Bytes) (c x : ℕ)
    → Fits seg v
    → accepts (token c) x ≡ true
    → Fits (seg ++ c ∷ []) (v ++ x ∷ [])
Fits-snoc [] [] c x h a = (a, tt)
Fits-snoc [] (y ∷ v) c x h a = absurd h
Fits-snoc (d ∷ seg) [] c x h a = absurd h
Fits-snoc (d ∷ seg) (y ∷ v) c x h a = (h.0, Fits-snoc seg v c x h.1 a)

pub NoStar-snoc : (seg : Bytes) (c : ℕ) → NoStar seg → (c == b'*') ≡ false → NoStar (seg ++ c ∷ [])
NoStar-snoc [] c n h = (h, tt)
NoStar-snoc (d ∷ seg) c n h = (n.0, NoStar-snoc seg c n.1 h)

fixed_below-cons :
    (s p : Bytes) (x c i : ℕ)
    → Loop.fixed_below (x ∷ s) (c ∷ p) (suc i) ≡ ((c == b'?' || c == x) && Loop.fixed_below s p i)
unfolding Loop.fixed_below
fixed_below-cons s p x c zero = ground arith
fixed_below-cons s p x c (suc i) = ground (arith, fixed_below-cons s p x c i)

fixed_below→Fits :
    (s p : Bytes)
    → NoStar p
    → length s ≡ length p
    → Loop.fixed_below s p (length p) ≡ true
    → Fits p s
fixed_below→Fits [] [] n e h = tt
fixed_below→Fits (x ∷ s) [] n e h = absurd (omega arith)
fixed_below→Fits [] (c ∷ p) n e h = absurd (omega arith)
fixed_below→Fits (x ∷ s) (c ∷ p) n e h =
    let (a, b) = &&_split _ _ (rw fixed_below-cons at h) in
    (rw (accepts-token c x n.0) a, fixed_below→Fits s p n.1 (omega arith) b)

Fits→fixed_below : (s p : Bytes) → Fits p s → Loop.fixed_below s p (length p) ≡ true
unfolding Loop.fixed_below
Fits→fixed_below [] [] h = refl
Fits→fixed_below (x ∷ s) [] h = refl
Fits→fixed_below [] (c ∷ p) h = absurd h
Fits→fixed_below (x ∷ s) (c ∷ p) h =
    rw (fixed_below-cons s p x c (length p))
      (rw (← accepts-token c x (accepts_not_star c x h.0)) (rw h.0 (Fits→fixed_below s p h.1)))

pub Suffix-drop_self : (n : ℕ) (s : Bytes) → Suffix (drop n s) s
Suffix-drop_self zero s = all
Suffix-drop_self (suc n) [] = all
Suffix-drop_self (suc n) (x ∷ s) = skip (Suffix-drop_self n s)

length-drop : (n : ℕ) (s : Bytes) → length (drop n s) ≡ length s - n
length-drop zero s = omega arith
length-drop (suc n) [] = omega arith
length-drop (suc n) (x ∷ s) = omega (arith, length-drop n s)

pub length-Suffix : {v : Bytes} {s : Bytes} → Suffix v s → length v ≤ length s
length-Suffix all = omega arith
length-Suffix (skip h) = omega (arith, length-Suffix h)

drop_zero : (n : ℕ) (s : Bytes) → n ≡ 0 → drop n s ≡ s
drop_zero zero s e = refl
drop_zero (suc n) s e = absurd (omega arith)

drop-suc : (n m x : ℕ) (s : Bytes) → n ≡ suc m → drop n (x ∷ s) ≡ drop m s
drop-suc n m x s e = rw e

-- A suffix is what is left after dropping the rest.
pub drop-Suffix : {v : Bytes} {s : Bytes} → Suffix v s → drop (length s - length v) s ≡ v
drop-Suffix {v} all = drop_zero (length v - length v) v (omega arith)
drop-Suffix {v} (skip {x} {s} h) =
    rw
      (drop-suc (suc (length s) - length v) (length s - length v) x s
        (omega (arith, length-Suffix h)))
      (drop-Suffix h)

pub match_fixed_suffix-Fits :
    (s seg : Bytes)
    → NoStar seg
    → length seg ≤ length s
    → match_fixed_suffix s seg ≡ true
    → Fits seg (drop (length s - length seg) s)
unfolding match_fixed_suffix
match_fixed_suffix-Fits s seg n le h =
    fixed_below→Fits _ seg n (omega (arith, length-drop (length s - length seg) s)) h

pub Fits-match_fixed_suffix :
    {v s : Bytes} (seg : Bytes) → Suffix v s → Fits seg v → match_fixed_suffix s seg ≡ true
unfolding match_fixed_suffix
Fits-match_fixed_suffix {v} {s} seg h f =
    rw (← length-Fits seg v f)
      (rw (drop-Suffix h) (rw (length-Fits seg v f) (Fits→fixed_below v seg f)))
