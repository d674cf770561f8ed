-- ===== src/Prelude/Sets.antt =====
-- A Go `map[K]struct{}` as the list of its keys, in the order in which a loop meets them, over a
-- type with Go's `==`.
use silo_pkg.Prelude.Tests.{◌==◌, if◌then◌else◌, Bool-cases, Bool-ext, &&_split, ==_iff}
use silo_pkg.Prelude.Lists.{length, all}
use Prim.Native.Nat.{suc, ◌≤◌}
use mathlib.Core.Path.{◌≡◌, refl, sym, ◌∙◌}
use mathlib.Core.Logic.{◌↔◌, inl, inr}
use mathlib.Core.Bool.{Bool, true, false, not, ◌&&◌, ◌||◌}
use mathlib.Core.List.{List, [], ◌∷◌}
use native.Mathlib.Omega.{arith}

pub record Eq {ℓ} (A : Type ℓ) : Type ℓ where
  pub beq : A → A → Bool
  pub beq_iff : (a b : A) → (beq a b ≡ true) ↔ (a ≡ b)

module _ {ℓ} {A : Type ℓ} ⦃e : Eq A⦄ where
  -- `_, ok := set[a]`
  unfoldable pub mem : A → List A → Bool
  mem a [] = false
  mem a (x ∷ xs) = e.beq x a || mem a xs

  -- `set[a] = struct{}{}`
  unfoldable pub set_add : List A → A → List A
  unfolding mem
  set_add xs a = if mem a xs then xs else a ∷ xs

  -- a loop that adds the elements of a list to a set
  unfoldable pub set_of : List A → List A
  unfolding set_add
  set_of [] = []
  set_of (x ∷ xs) = set_add (set_of xs) x

  unfoldable pub set_equals : List A → List A → Bool
  unfolding mem
  set_equals xs ys = if not (length xs == length ys) then false else all (λ k. mem k ys) xs

  unfoldable pub set_intersection : List A → List A → List A
  unfolding mem
  set_intersection [] ys = []
  set_intersection (x ∷ xs) ys =
      let rest = set_intersection xs ys in if mem x ys then x ∷ rest else rest

  -- No key twice: what holds of the keys of a Go map.
  unfoldable pub distinct : List A → Bool
  unfolding mem
  distinct [] = true
  distinct (x ∷ xs) = not (mem x xs) && distinct xs

  beq_self : (a : A) → e.beq a a ≡ true
  beq_self a = (e.beq_iff a a).1 refl

  remove : A → List A → List A
  remove a [] = []
  remove a (x ∷ xs) = let rest = remove a xs in if e.beq x a then xs else x ∷ rest

  length-remove : (a : A) (xs : List A) → mem a xs ≡ true → suc (length (remove a xs)) ≡ length xs
  unfolding mem remove
  length-remove a [] h = cc
  length-remove a (x ∷ xs) h = ground (arith, length-remove a xs)

  mem-remove :
      (a b : A) (xs : List A) → e.beq a b ≡ false → mem b xs ≡ true → mem b (remove a xs) ≡ true
  unfolding mem remove
  mem-remove a b [] h m = cc
  mem-remove a b (x ∷ xs) h m = elim (Bool-cases (e.beq x a)) [
    | inl same ↦ rw same (elim (Bool-cases (e.beq x b)) [
      | inl x_is_b ↦ cc (h, (e.beq_iff x a).0 same, x_is_b)
      | inr other ↦ ground (arith, m)
    ])
    | inr other ↦ rw other (ground (arith, mem-remove a b xs h))
  ]

  mem_ne : (x b : A) (xs : List A) → mem x xs ≡ false → mem b xs ≡ true → e.beq x b ≡ false
  mem_ne x b xs h m = elim (Bool-cases (e.beq x b)) [
    | inl same ↦ cc ((e.beq_iff x b).0 same)
    | inr other ↦ other
  ]

  abbrev pub Within : List A → List A → Type ℓ
  Within xs ys = (a : A) → mem a xs ≡ true → mem a ys ≡ true

  Within-tail : (x : A) (xs ys : List A) → Within (x ∷ xs) ys → Within xs ys
  unfolding mem
  Within-tail x xs ys h a m = h a (ground arith)

  -- Distinct elements of a list are at most as many as the list has.
  length-Within : (xs ys : List A) → distinct xs ≡ true → Within xs ys → length xs ≤ length ys
  unfolding distinct
  length-Within [] ys d h = omega arith
  length-Within (x ∷ xs) ys d h =
      let (new, rest) = &&_split (not (mem x xs)) (distinct xs) d in
      let in_ys : mem x ys ≡ true = h x (unfold mem in ground (arith, beq_self x)) in
      let apart : mem x xs ≡ false = ground arith in
      omega (
        arith,
        length-remove x ys in_ys,
        length-Within xs (remove x ys) rest
            (λ a m. mem-remove x a ys (mem_ne x a xs apart m) (Within-tail x xs ys h a m)),
      )

  all-Within : (xs ys : List A) → all (λ k. mem k ys) xs ≡ true → Within xs ys
  unfolding mem
  all-Within [] ys h a m = cc
  all-Within (x ∷ xs) ys h a m =
      let (first, rest) = &&_split (mem x ys) (all (λ k. mem k ys) xs) h in
      elim (Bool-cases (e.beq x a)) [
        | inl same ↦ rw (← (e.beq_iff x a).0 same) first
        | inr other ↦ all-Within xs ys rest a (ground arith)
      ]

  Within-all : (xs ys : List A) → Within xs ys → all (λ k. mem k ys) xs ≡ true
  Within-all [] ys h = refl
  Within-all (x ∷ xs) ys h =
      rw (h x (unfold mem in ground (arith, beq_self x))) (Within-all xs ys (Within-tail x xs ys h))

  -- As many distinct elements within a list as it has leave none out.
  Within-converse :
      (xs ys : List A) → distinct xs ≡ true → Within xs ys → length xs ≡ length ys → Within ys xs
  Within-converse xs ys d h l a m = elim (Bool-cases (mem a xs)) [
    | inl inside ↦ inside
    | inr outside ↦ absurd (
        omega (
          arith,
          length-remove a ys m,
          length-Within xs (remove a ys) d
              (λ b n. mem-remove a b ys (mem_ne a b xs outside n) (h b n)),
        ))
  ]

  pub set_equals→mem :
      (xs ys : List A)
      → distinct xs ≡ true
      → set_equals xs ys ≡ true
      → (a : A) → mem a xs ≡ mem a ys
  unfolding set_equals
  set_equals→mem xs ys d h a =
      let within = all-Within xs ys (ground arith) in
      Bool-ext _ _ (within a) (Within-converse xs ys d within (ground arith) a)

  pub mem→set_equals :
      (xs ys : List A)
      → distinct xs ≡ true
      → distinct ys ≡ true
      → ((a : A) → mem a xs ≡ mem a ys)
      → set_equals xs ys ≡ true
  unfolding set_equals
  mem→set_equals xs ys dx dy h =
      let to : Within xs ys = λ a m. sym (h a) ∙ m in
      let from : Within ys xs = λ a m. h a ∙ m in
      let same : length xs ≡ length ys =
        omega (arith, length-Within xs ys dx to, length-Within ys xs dy from) in
      rw ((==_iff (length xs) (length ys)).1 same) (Within-all xs ys to)
