-- ===== src/Policy/Duplicates.antt =====
-- policy/statement.go: `Equals`; policy/policy.go: `Equals` and `dropDuplicateStatementsOriginal`.
use silo_pkg.Prelude.{
  ◌≡◌, refl, Bool, true, false, not, ◌&&◌, ◌||◌, List, [], ◌∷◌, all, any, drop, length, ◌==◌,
  if◌then◌else◌, arith, ◌⊎◌, inl, inr, Bool-cases, All,
}
use silo_pkg.Prelude.Bytes.{eqb}
use silo_pkg.Condition.Functions.{functions_equal}
use silo_pkg.Policy.ActionSet.{actions_equal}
use silo_pkg.Policy.ResourceSet.{resources_equal}
use silo_pkg.Policy.Statement.{Statement}
use silo_pkg.Policy.Decide.{Policy}

-- `Statement.Equals`
unfoldable pub statement_equals : Statement → Statement → Bool
unfolding eqb
statement_equals statement st =
    if not (eqb statement.effect st.effect)
    then false
    else if not (actions_equal statement.actions st.actions)
    then false
    else if not (actions_equal statement.not_actions st.not_actions)
    then false
    else if not (resources_equal statement.resources st.resources)
    then false
    else if not (resources_equal statement.not_resources st.not_resources)
    then false
    else functions_equal statement.conditions st.conditions

all_equal : List Statement → List Statement → Bool
all_equal (st ∷ statements) (other ∷ others) =
    statement_equals other st && all_equal statements others
all_equal _ _ = true

-- `Policy.Equals`
unfoldable pub policy_equals : Policy → Policy → Bool
unfolding eqb all_equal
policy_equals iamp p =
    if not (eqb iamp.id p.id) || not (eqb iamp.version p.version)
    then false
    else if not (length iamp.statements == length p.statements)
    then false
    else all_equal iamp.statements p.statements

-- `_, ok := dups[i]`, for the map `dups` as its marks from the index i on
unfoldable pub is_dup : List Bool → Bool
is_dup [] = false
is_dup (d ∷ dups) = d

-- the inner loop: the marks of the statements behind the index i
unfoldable pub mark : Statement → List Statement → List Bool → List Bool
unfolding is_dup
mark s [] dups = []
mark s (st ∷ statements) dups =
    (statement_equals s st || is_dup dups) ∷ mark s statements (drop 1 dups)

-- the outer loop: the marks at its end
unfoldable pub dup_loop : List Statement → List Bool → List Bool
unfolding mark is_dup
dup_loop [] dups = []
dup_loop (s ∷ statements) dups =
    is_dup dups
    ∷ dup_loop statements (if is_dup dups then drop 1 dups else mark s statements (drop 1 dups))

-- the last loop, which moves the statements without a mark to the front
unfoldable pub keep : List Statement → List Bool → List Statement
unfolding is_dup
keep [] dups = []
keep (s ∷ statements) dups =
    let rest = keep statements (drop 1 dups) in if is_dup dups then rest else s ∷ rest

-- `dropDuplicateStatementsOriginal`: the statements that are left
unfoldable pub drop_duplicate_statements_original : List Statement → List Statement
unfolding keep dup_loop
drop_duplicate_statements_original statements = keep statements (dup_loop statements [])

-- No statement equals a later one.
unfoldable pub apart : List Statement → Bool
apart [] = true
apart (s ∷ statements) = all (λ st. not (statement_equals s st)) statements && apart statements

-- Every statement that s equals has a mark.
abbrev Covered : Statement → List Statement → List Bool → Type 0
Covered s [] dups = Unit {0}
Covered s (st ∷ statements) dups =
    (statement_equals s st ≡ true → is_dup dups ≡ true) × Covered s statements (drop 1 dups)

mark-Covered :
    (s : Statement) (statements : List Statement) (dups : List Bool)
    → Covered s statements (mark s statements dups)
unfolding mark
mark-Covered s [] dups = tt
mark-Covered s (st ∷ statements) dups = (λ h. ground arith, mark-Covered s statements (drop 1 dups))

mark_keeps :
    (s t : Statement) (statements : List Statement) (dups : List Bool)
    → Covered t statements dups
    → Covered t statements (mark s statements dups)
unfolding mark
mark_keeps s t [] dups h = tt
mark_keeps s t (st ∷ statements) dups h =
    (λ e. let marked = h.0 e in ground arith, mark_keeps s t statements (drop 1 dups) h.1)

kept_differ :
    (t : Statement) (statements : List Statement) (dups : List Bool)
    → Covered t statements dups
    → all (λ st. not (statement_equals t st)) (keep statements (dup_loop statements dups)) ≡ true
unfolding keep dup_loop
kept_differ t [] dups h = refl
kept_differ t (s ∷ statements) dups h = elim (Bool-cases (is_dup dups)) [
  | inl d ↦ rw d (kept_differ t statements (drop 1 dups) h.1)
  | inr d ↦
      let rest =
        kept_differ t statements (mark s statements (drop 1 dups))
          (mark_keeps s t statements (drop 1 dups) h.1) in
      rw d (ground (arith, h.0, rest))
]

kept_apart :
    (statements : List Statement) (dups : List Bool)
    → apart (keep statements (dup_loop statements dups)) ≡ true
unfolding keep dup_loop apart
kept_apart [] dups = refl
kept_apart (s ∷ statements) dups = elim (Bool-cases (is_dup dups)) [
  | inl d ↦ rw d (kept_apart statements (drop 1 dups))
  | inr d ↦
      let next = mark s statements (drop 1 dups) in
      rw d (
        ground (
          arith,
          kept_differ s statements next (mark-Covered s statements (drop 1 dups)),
          kept_apart statements next,
        ))
]

-- Among the statements that `dropDuplicateStatementsOriginal` leaves, none is equal to a later one in the
-- sense of `Equals`.
pub drop_duplicate_statements_original-apart :
    (statements : List Statement) → apart (drop_duplicate_statements_original statements) ≡ true
unfolding drop_duplicate_statements_original
drop_duplicate_statements_original-apart statements = kept_apart statements []

-- `st` is one of the statements.
abbrev pub Among : Statement → List Statement → Type 0
Among st [] = ⊥
Among st (s ∷ statements) = (s ≡ st) ⊎ Among st statements

-- One of the statements equals `st`.
unfoldable pub has_equal : List Statement → Statement → Bool
has_equal statements st = any (λ s. statement_equals s st) statements

has_equal-Among :
    (s st : Statement) (statements : List Statement)
    → Among s statements
    → statement_equals s st ≡ true
    → has_equal statements st ≡ true
unfolding has_equal
has_equal-Among s st [] i h = elim i [ ]
has_equal-Among s st (t ∷ statements) (inl e) h = rw (e, h) refl
has_equal-Among s st (t ∷ statements) (inr i) h =
    ground (arith, has_equal-Among s st statements i h)

-- Every mark has a statement in `left` that equals the marked one.
abbrev Sound : List Statement → List Statement → List Bool → Type 0
Sound left [] dups = Unit {0}
Sound left (st ∷ statements) dups =
    (is_dup dups ≡ true → has_equal left st ≡ true) × Sound left statements (drop 1 dups)

mark-Sound :
    (left : List Statement) (s : Statement) (statements : List Statement) (dups : List Bool)
    → Among s left
    → Sound left statements dups
    → Sound left statements (mark s statements dups)
unfolding mark
mark-Sound left s [] dups i h = tt
mark-Sound left s (st ∷ statements) dups i h = (
  λ e. ground (arith, h.0, has_equal-Among s st left i),
  mark-Sound left s statements (drop 1 dups) i h.1,
)

no_marks-Sound : (left statements : List Statement) → Sound left statements []
unfolding is_dup
no_marks-Sound left [] = tt
no_marks-Sound left (st ∷ statements) = (λ e. cc, no_marks-Sound left statements)

stands :
    (left statements : List Statement) (dups : List Bool)
    → ((st : Statement) → Among st (keep statements (dup_loop statements dups)) → Among st left)
    → Sound left statements dups
    → All (λ st. Among st left ⊎ (has_equal left st ≡ true)) statements
unfolding keep dup_loop
stands left [] dups k h = tt
stands left (s ∷ statements) dups k h = elim (Bool-cases (is_dup dups)) [
  | inl d ↦ (inr (h.0 d), stands left statements (drop 1 dups) (rw d at k) h.1)
  | inr d ↦
      let k' : (st : Statement)
          → Among st (s ∷ keep statements (dup_loop statements (mark s statements (drop 1 dups))))
          → Among st left =
        rw d at k in
      let here : Among s left = k' s (inl refl) in
      (
        inl here,
        stands left statements (mark s statements (drop 1 dups)) (λ st i. k' st (inr i))
            (mark-Sound left s statements (drop 1 dups) here h.1),
      )
]

-- Every statement is left by `dropDuplicateStatementsOriginal`, or some statement that is left is equal
-- to it in the sense of `Equals`.
pub drop_duplicate_statements_original-All :
    (statements : List Statement)
    → All
        (λ st.
          Among st (drop_duplicate_statements_original statements)
          ⊎ (has_equal (drop_duplicate_statements_original statements) st ≡ true))
        statements
unfolding drop_duplicate_statements_original
drop_duplicate_statements_original-All statements =
    stands (keep statements (dup_loop statements [])) statements [] (λ st i. i)
      (no_marks-Sound (keep statements (dup_loop statements [])) statements)
