-- ===== src/Policy/ParseLoop.antt =====
-- policy/resource.go: the loop of `ParseResource` over the map of ARN prefixes.
use silo_pkg.Prelude.{
  ◌≡◌, refl, sym, ap, ◌∙◌, Bool, true, false, ◌||◌, List, [], ◌∷◌, if◌then◌else◌, arith, Bool-cases,
  inl, inr, ◌⊎◌, length, drop, ==_refl, false≢true,
}
use silo_pkg.Prelude.Bytes.{Bytes, eqb, has_prefix, eqb→eq}
use silo_pkg.Policy.Scan.{prefix_linear}
use silo_pkg.Policy.Resource.{
  Resource, ArnType, unknown_arn, arn_s3, arn_s3tables, arn_kms, arn_all, arn_prefix_to_type,
  parse_loop, no_resource, arn_string,
}

abbrev pub Entry : Type 0
Entry = Bytes × ArnType

abbrev pub In : Entry → List Entry → Type 0
In e [] = ⊥
In e (x ∷ xs) = (x ≡ e) ⊎ In e xs

-- `order` lists the entries of the map, in any order.
abbrev pub IsOrder : List Entry → Type 0
IsOrder order =
    ((e : Entry) → In e arn_prefix_to_type → In e order)
    × ((e : Entry) → In e order → In e arn_prefix_to_type)

-- What the loop makes of the one entry whose prefix the text has.
unfoldable pub read_as : Bytes → Entry → Resource
read_as s (k, v) =
    if eqb s k
    then record { pattern = k; arn_type = arn_all }
    else record { pattern = drop (length k) s; arn_type = v }

-- No other entry's prefix starts the text.
abbrev pub Only : Bytes → Entry → List Entry → Type 0
Only s e [] = Unit {0}
Only s e ((k, v) ∷ xs) = (has_prefix s k ≡ true → ◌≡◌ {A = Entry} (k, v) e) × Only s e xs

eqb-has_prefix : (s : Bytes) → has_prefix s s ≡ true
unfolding has_prefix
eqb-has_prefix [] = refl
eqb-has_prefix (x ∷ s) = rw (==_refl x) (eqb-has_prefix s)

not_prefix : (s k : Bytes) → has_prefix s k ≡ false → eqb s k ≡ false
not_prefix s k h = elim (Bool-cases (eqb s k)) [
  | inl e ↦ cc (eqb-has_prefix s, eqb→eq s k e)
  | inr e ↦ e
]

whole_keeps :
    (m : List Entry) (s k : Bytes) (v : ArnType)
    → Only s (k, v) m
    → eqb s k ≡ true
    → parse_loop m s (record { pattern = k; arn_type = arn_all })
      ≡ record { pattern = k; arn_type = arn_all }
unfolding parse_loop
whole_keeps [] s k v only h = refl
whole_keeps ((j, w) ∷ m) s k v only h = elim (Bool-cases (has_prefix s j)) [
  | inl p ↦
      let same : j ≡ k = ap (λ (e : Entry). e.0) (only.0 p) in
      rw (same, h) (whole_keeps m s k v only.1 h)
  | inr p ↦ rw (not_prefix s j p, p) (whole_keeps m s k v only.1 h)
]

loop_finds :
    (m : List Entry) (s k : Bytes) (v : ArnType) (r : Resource)
    → Only s (k, v) m
    → has_prefix s k ≡ true
    → In (k, v) m
    → parse_loop m s r ≡ read_as s (k, v)
unfolding parse_loop read_as
loop_finds [] s k v r only h i = absurd i
loop_finds ((j, w) ∷ m) s k v r only h i = elim (Bool-cases (has_prefix s j)) [
  | inl p ↦
      let same_key : j ≡ k = ap (λ (e : Entry). e.0) (only.0 p) in
      let same_type : w ≡ v = ap (λ (e : Entry). e.1) (only.0 p) in
      elim (Bool-cases (eqb s k)) [
        | inl whole ↦ rw (same_key, whole) (whole_keeps m s k v only.1 whole)
        | inr part ↦ rw (same_key, part, h, same_type)
      ]
  | inr p ↦
      rw (not_prefix s j p, p)
        (loop_finds m s k v r only.1 h
          (later i (λ e. false≢true (sym p ∙ rw (ap (λ (e : Entry). e.0) e) h))))
]
  where
    later : In (k, v) ((j, w) ∷ m) → ¬ (◌≡◌ {A = Entry} (j, w) (k, v)) → In (k, v) m
    later (inl e) n = absurd (n e)
    later (inr i) n = i

pub loop_misses :
    (m : List Entry) (s : Bytes) (r : Resource)
    → ((e : Entry) → In e m → has_prefix s e.0 ≡ false)
    → parse_loop m s r ≡ r
unfolding parse_loop
loop_misses [] s r h = refl
loop_misses ((k, v) ∷ m) s r h =
    let p = h (k, v) (inl refl) in rw (not_prefix s k p, p) (loop_misses m s r (λ e i. h e (inr i)))

abbrev pub known : ArnType → Bool
known unknown_arn = false
known _ = true

pub table_entry :
    (e : Entry) → In e arn_prefix_to_type → (e ≡ (arn_string e.1, e.1)) × (known e.1 ≡ true)
unfolding arn_prefix_to_type arn_string
table_entry e (inl p) = rw (← p) (refl, refl)
table_entry e (inr (inl p)) = rw (← p) (refl, refl)
table_entry e (inr (inr (inl p))) = rw (← p) (refl, refl)
table_entry e (inr (inr (inr (inl p)))) = rw (← p) (refl, refl)
table_entry e (inr (inr (inr (inr i)))) = absurd i

pub In-arn_prefix_to_type : (t : ArnType) → known t ≡ true → In (arn_string t, t) arn_prefix_to_type
unfolding arn_prefix_to_type arn_string
In-arn_prefix_to_type unknown_arn h = cc
In-arn_prefix_to_type arn_s3 h = inl refl
In-arn_prefix_to_type arn_s3tables h = inr (inl refl)
In-arn_prefix_to_type arn_kms h = inr (inr (inl refl))
In-arn_prefix_to_type arn_all h = inr (inr (inr (inl refl)))

types_apart :
    (t u : ArnType)
    → known t ≡ true
    → known u ≡ true
    → (has_prefix (arn_string t) (arn_string u) || has_prefix (arn_string u) (arn_string t)) ≡ true
    → t ≡ u
unfolding has_prefix arn_string
types_apart t u h k p = ground arith

two_prefixes :
    (s a b : Bytes)
    → has_prefix s a ≡ true
    → has_prefix s b ≡ true
    → (has_prefix a b || has_prefix b a) ≡ true
two_prefixes s a b h k = ground (arith, prefix_linear s a b h k, prefix_linear s b a k h)

-- At most one prefix of the table starts a text.
exclusive :
    (s : Bytes) (t : ArnType) (e : Entry)
    → known t ≡ true
    → has_prefix s (arn_string t) ≡ true
    → In e arn_prefix_to_type
    → has_prefix s e.0 ≡ true
    → e ≡ (arn_string t, t)
exclusive s t e n h i p =
    let (shape, k) = table_entry e i in
    let same : e.1 ≡ t = types_apart e.1 t k n (
      two_prefixes s (arn_string e.1) (arn_string t) (rw (ap (λ (x : Entry). x.0) shape) at p) h) in
    shape ∙ ap (λ (u : ArnType). let x : Entry = (arn_string u, u) in x) same

Only-order :
    (order m : List Entry) (s : Bytes) (t : ArnType)
    → IsOrder order
    → ((e : Entry) → In e m → In e order)
    → known t ≡ true
    → has_prefix s (arn_string t) ≡ true
    → Only s (arn_string t, t) m
Only-order order [] s t o w n h = tt
Only-order order ((k, v) ∷ m) s t o w n h = (
  λ p. exclusive s t (k, v) n h (o.1 (k, v) (w (k, v) (inl refl))) p,
  Only-order order m s t o (λ e i. w e (inr i)) n h,
)

pub found :
    (order : List Entry) (s : Bytes) (t : ArnType)
    → IsOrder order
    → known t ≡ true
    → has_prefix s (arn_string t) ≡ true
    → parse_loop order s no_resource ≡ read_as s (arn_string t, t)
found order s t o n h =
    loop_finds order s (arn_string t) t no_resource (Only-order order order s t o (λ e i. i) n h) h
      (o.0 (arn_string t, t) (In-arn_prefix_to_type t n))
