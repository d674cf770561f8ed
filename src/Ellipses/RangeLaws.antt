-- ===== src/Ellipses/RangeLaws.antt =====
-- ellipses/ellipses.go: what the loop over a range returns, and when it ends.
use silo_pkg.Prelude.{
  ℕ, zero, suc, ◌+◌, ◌-◌, ◌%◌, ◌^◌, ◌≤◌, ◌<◌, List, [], ◌∷◌, true, false, leb, ltb, map, Option,
  none, some, ◌≡◌, refl, arith, ◌⊎◌, inl, inr, ◌↔◌, Bool-cases,
}
use silo_pkg.Prelude.Bytes.{Bytes}
use silo_pkg.Ellipses.RangeForm.{IsRangeText, IsRangeText-parse_bounds, parse_bounds-IsRangeText}
use silo_pkg.Ellipses.Range.{
  Result, done, error, running, Range, parse_bounds, label, onto, range_loop, expand_range,
  parse_ellipses_range,
}

-- n numbers from i on
abbrev pub count_up : ℕ → ℕ → List ℕ
count_up i zero = []
count_up i (suc n) = i ∷ count_up (suc i) n

range_loop-done :
    (n fuel : ℕ) (text : ℕ → Bytes) (i end : ℕ)
    → suc end < 2 ^ 64
    → suc end ≡ i + n
    → n < fuel
    → range_loop fuel text i end ≡ done (map text (count_up i n))
unfolding range_loop onto
range_loop-done n zero text i end b e f = absurd (omega arith)
range_loop-done zero (suc fuel) text i end b e f =
    let over : leb i end ≡ false = ground arith in rw over refl
range_loop-done (suc n) (suc fuel) text i end b e f =
    let inside : leb i end ≡ true = ground arith in
    let next : (i + 1) % 2 ^ 64 ≡ suc i = omega arith in
    let behind = range_loop-done n fuel text (suc i) end b (omega arith) (omega arith) in
    rw (inside, next, behind) refl

-- If the pattern holds two numbers in order and the last one is below 2^64 - 1, then with fuel for one more
-- round than the range has numbers `parseEllipsesRange` returns the texts of all of them in order, the first
-- and the last one included.
pub parse_ellipses_range-done :
    (fuel : ℕ) (pattern : Bytes) (r : Range)
    → parse_bounds pattern ≡ some r
    → r.start ≤ r.end
    → suc r.end < 2 ^ 64
    → suc r.end - r.start < fuel
    → parse_ellipses_range fuel pattern
      ≡ done (map (label r) (count_up r.start (suc r.end - r.start)))
unfolding parse_ellipses_range expand_range
parse_ellipses_range-done fuel pattern r p order below f =
    let in_order : ltb r.end r.start ≡ false = ground arith in
    rw (p, in_order)
      (range_loop-done (suc r.end - r.start) fuel (label r) r.start r.end below (omega arith) f)

-- A loop up to the greatest number of 64 bits goes on for ever.
range_loop-running :
    (fuel : ℕ) (text : ℕ → Bytes) (i : ℕ)
    → i < 2 ^ 64
    → range_loop fuel text i (2 ^ 64 - 1) ≡ running
unfolding range_loop onto
range_loop-running zero text i b = refl
range_loop-running (suc fuel) text i b =
    let inside : leb i (2 ^ 64 - 1) ≡ true = ground arith in
    let behind = range_loop-running fuel text ((i + 1) % 2 ^ 64) (omega arith) in
    rw (inside, behind) refl

-- If the pattern holds two numbers in order and the last one is 2^64 - 1, then with no fuel does the loop of
-- `parseEllipsesRange` come to its end: its counter starts again at zero behind the last number.
pub parse_ellipses_range-running :
    (fuel : ℕ) (pattern : Bytes) (r : Range)
    → parse_bounds pattern ≡ some r
    → r.start ≤ r.end
    → r.end ≡ 2 ^ 64 - 1
    → parse_ellipses_range fuel pattern ≡ running
unfolding parse_ellipses_range expand_range
parse_ellipses_range-running fuel pattern r p order last =
    let in_order : ltb r.end r.start ≡ false = ground arith in
    rw (p, in_order, last) (range_loop-running fuel (label r) r.start (omega arith))

onto-no_error : (x : Bytes) (o : Result (List Bytes)) → onto x o ≡ error → o ≡ error
unfolding onto
onto-no_error x (done xs) e = cc
onto-no_error x error e = refl
onto-no_error x running e = cc

range_loop-no_error :
    (fuel : ℕ) (text : ℕ → Bytes) (i end : ℕ) → range_loop fuel text i end ≡ error → ⊥
unfolding range_loop
range_loop-no_error zero text i end e = cc
range_loop-no_error (suc fuel) text i end e = elim (Bool-cases (leb i end)) [
  | inl inside ↦ range_loop-no_error fuel text _ end (onto-no_error (text i) _ (rw inside at e))
  | inr over ↦ finished (rw over at e)
]
  where
    finished : ◌≡◌ {A = Result (List Bytes)} (done []) error → ⊥
    finished e = cc

OutOfOrder : Option Range → Type 0
OutOfOrder o = (r : Range) × (o ≡ some r) × (r.end < r.start)

expand_range-error :
    (fuel : ℕ) (o : Option Range) → (expand_range fuel o ≡ error) ↔ ((o ≡ none) ⊎ OutOfOrder o)
unfolding expand_range OutOfOrder
expand_range-error fuel none = (λ e. inl refl, λ h. refl)
expand_range-error fuel (some r) = (
  λ e. elim (Bool-cases (ltb r.end r.start)) [
    | inl less ↦ inr (r, refl, ground arith)
    | inr ordered ↦ absurd (range_loop-no_error fuel (label r) r.start r.end (rw ordered at e))
  ],
  elim [
    | inl h ↦ cc
    | inr (q, e, less) ↦
        let same : r ≡ q = cc in
        let out : ltb r.end r.start ≡ true = rw same (ground arith) in rw out refl
  ],
)

-- `parseEllipsesRange` returns an error exactly if the pattern is not an opening brace, a number, three
-- dots, a number that is not smaller, and a closing brace, each number decimal or else hexadecimal and
-- below 2^64.
pub parse_ellipses_range-error :
    (fuel : ℕ) (pattern : Bytes)
    → (parse_ellipses_range fuel pattern ≡ error)
      ↔ (¬ ((r : Range) × IsRangeText pattern r × (r.start ≤ r.end)))
unfolding parse_ellipses_range OutOfOrder
parse_ellipses_range-error fuel pattern = (
  λ e (r, text, order).
      let bounds = IsRangeText-parse_bounds pattern r text in
      elim ((expand_range-error fuel (parse_bounds pattern)).0 e) [
        | inl h ↦ cc
        | inr (q, f, less) ↦
            let same : r ≡ q = cc in
            let less' : r.end < r.start = rw same less in absurd (omega arith)
      ],
  λ none_such. go none_such (parse_bounds pattern) refl,
)
  where
    go :
        (¬ ((r : Range) × IsRangeText pattern r × (r.start ≤ r.end)))
        → (o : Option Range) → parse_bounds pattern ≡ o
        → expand_range fuel (parse_bounds pattern) ≡ error
    go none_such none f = (expand_range-error fuel (parse_bounds pattern)).1 (inl f)
    go none_such (some r) f = elim (Bool-cases (ltb r.end r.start)) [
      | inl less ↦ (expand_range-error fuel (parse_bounds pattern)).1 (inr (r, f, ground arith))
      | inr ordered ↦ absurd (none_such (r, parse_bounds-IsRangeText pattern r f, ground arith))
    ]
