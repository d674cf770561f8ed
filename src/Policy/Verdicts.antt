-- ===== src/Policy/Verdicts.antt =====
-- policy/policy.go: decisions joined, a denial over an allowance over no decision, and what
-- `IsAllowedSerial` and the loop of a worker make of the decisions of their policies.
use silo_pkg.Prelude.{
  ℕ, zero, suc, ◌+◌, ◌*◌, ◌≤◌, ◌≡◌, ◌≢◌, refl, sym, ap, ◌∙◌, Bool, true, false, List, [], ◌∷◌,
  length, take, drop, Outcome, ret, panic, ◌>>=◌, arith,
}
use silo_pkg.Policy.Statement.{Args}
use silo_pkg.Policy.Decide.{
  Policy, Decision, no_decision, allow_decision, deny_decision, decide, is_allow, is_allowed_serial,
  serial_loop,
}
use silo_pkg.Policy.Parallel.{job_result, batches}

abbrev pub join : Decision → Decision → Decision
join deny_decision d = deny_decision
join allow_decision deny_decision = deny_decision
join allow_decision _ = allow_decision
join no_decision d = d

pub join_comm : (a b : Decision) → join a b ≡ join b a
join_comm a b = ground arith

pub join_assoc : (a b c : Decision) → join (join a b) c ≡ join a (join b c)
join_assoc a b c = ground arith

pub join-none : (a : Decision) → join a no_decision ≡ a
join-none a = ground arith

abbrev pub is_deny : Decision → Bool
is_deny deny_decision = true
is_deny _ = false

-- The decision of an outcome that is one.
abbrev pub decision_of : Outcome Decision → Decision
decision_of (ret d) = d
decision_of panic = no_decision

pub verdict : Bool → Args → Policy → Decision
verdict legacy args p = decision_of (decide legacy p args)

-- No decision of these policies panics.
abbrev pub AllDecide : Bool → Args → List Policy → Type 0
AllDecide legacy args [] = Unit {0}
AllDecide legacy args (p ∷ policies) =
    (decide legacy p args ≢ panic) × AllDecide legacy args policies

decision_of_ret : (o : Outcome Decision) → o ≢ panic → o ≡ ret (decision_of o)
decision_of_ret (ret d) h = refl
decision_of_ret panic h = absurd (h refl)

module _ (legacy : Bool) (args : Args) where
  pub decide-verdict :
      (p : Policy)
      → decide legacy p args ≢ panic
      → decide legacy p args ≡ ret (verdict legacy args p)
  unfolding verdict
  decide-verdict p h = decision_of_ret (decide legacy p args) h

  unfoldable pub joined : List Policy → Decision
  joined [] = no_decision
  joined (p ∷ policies) = join (verdict legacy args p) (joined policies)

  got : Bool → Decision
  got true = allow_decision
  got false = no_decision

  serial_step :
      (d : Decision) (next : Bool → Outcome Bool) (b : Bool) (rest : Decision)
      → ((c : Bool) → next c ≡ ret (is_allow (join (got c) rest)))
      → (ret d >>= elim [
        | deny_decision ↦ ret false
        | allow_decision ↦ next true
        | no_decision ↦ next b
      ])
        ≡ ret (is_allow (join (got b) (join d rest)))
  unfolding got
  serial_step d next b rest h = ground (arith, h true, h b)

  serial_loop-joined :
      (policies : List Policy) (b : Bool)
      → AllDecide legacy args policies
      → serial_loop legacy args policies b ≡ ret (is_allow (join (got b) (joined policies)))
  unfolding serial_loop joined
  serial_loop-joined [] b h = unfold got in ground arith
  serial_loop-joined (p ∷ policies) b h = rw (decide-verdict p h.0) (
      serial_step (verdict legacy args p) (serial_loop legacy args policies) b (joined policies)
        (λ c. serial_loop-joined policies c h.1))

  pub serial-joined :
      (policies : List Policy)
      → AllDecide legacy args policies
      → is_allowed_serial legacy policies args ≡ ret (is_allow (joined policies))
  unfolding is_allowed_serial got
  serial-joined policies h = serial_loop-joined policies false h

  job_step :
      (d : Decision) (next : Decision → Outcome Decision) (res rest : Decision)
      → res ≢ deny_decision
      → ((c : Decision) → c ≢ deny_decision → next c ≡ ret (join c rest))
      → (ret d >>= elim [
        | deny_decision ↦ ret deny_decision
        | allow_decision ↦ next allow_decision
        | no_decision ↦ next res
      ])
        ≡ ret (join res (join d rest))
  job_step deny_decision next res rest n h = ground arith
  job_step allow_decision next res rest n h = h allow_decision (λ e. cc) ∙ ground arith
  job_step no_decision next res rest n h = h res n

  job_result-joined :
      (policies : List Policy) (res : Decision)
      → res ≢ deny_decision
      → AllDecide legacy args policies
      → job_result legacy args policies res ≡ ret (join res (joined policies))
  unfolding job_result joined
  job_result-joined [] res n h = rw join-none
  job_result-joined (p ∷ policies) res n h = rw (decide-verdict p h.0) (
      job_step (verdict legacy args p) (job_result legacy args policies) res (joined policies) n
        (λ c m. job_result-joined policies c m h.1))

  pub job-joined :
      (policies : List Policy)
      → AllDecide legacy args policies
      → job_result legacy args policies no_decision ≡ ret (joined policies)
  job-joined policies h = job_result-joined policies no_decision (λ e. cc) h

  -- The decisions of several jobs joined.
  unfoldable pub joined_all : List (List Policy) → Decision
  joined_all [] = no_decision
  joined_all (b ∷ bs) = join (joined b) (joined_all bs)

  abbrev pub AllJobs : List (List Policy) → Type 0
  AllJobs [] = Unit {0}
  AllJobs (b ∷ bs) = AllDecide legacy args b × AllJobs bs

  joined-take :
      (n : ℕ) (ps : List Policy) → join (joined (take n ps)) (joined (drop n ps)) ≡ joined ps
  unfolding joined
  joined-take zero ps = refl
  joined-take (suc n) [] = refl
  joined-take (suc n) (p ∷ ps) =
      rw join_assoc (ap (join (verdict legacy args p)) (joined-take n ps))

  AllDecide-take :
      (n : ℕ) (ps : List Policy) → AllDecide legacy args ps → AllDecide legacy args (take n ps)
  AllDecide-take zero ps h = tt
  AllDecide-take (suc n) [] h = tt
  AllDecide-take (suc n) (p ∷ ps) h = (h.0, AllDecide-take n ps h.1)

  AllDecide-drop :
      (n : ℕ) (ps : List Policy) → AllDecide legacy args ps → AllDecide legacy args (drop n ps)
  AllDecide-drop zero ps h = h
  AllDecide-drop (suc n) [] h = tt
  AllDecide-drop (suc n) (p ∷ ps) h = AllDecide-drop n ps h.1

  pub AllJobs-batches :
      (n : ℕ) (ps : List Policy) → AllDecide legacy args ps → AllJobs (batches n ps)
  unfolding batches
  AllJobs-batches zero ps h = tt
  AllJobs-batches (suc n) ps h =
      (AllDecide-take 25 ps h, AllJobs-batches n (drop 25 ps) (AllDecide-drop 25 ps h))

  joined_nil : (ps : List Policy) → length ps ≤ 0 → joined ps ≡ no_decision
  unfolding joined
  joined_nil [] h = refl
  joined_nil (p ∷ ps) h = absurd (omega arith)

length-drop {ℓ} : {A : Type ℓ} (n m : ℕ) (xs : List A) → length xs ≤ n + m → length (drop n xs) ≤ m
length-drop zero m xs h = omega arith
length-drop (suc n) m [] h = omega arith
length-drop (suc n) m (x ∷ xs) h = length-drop n m xs (omega arith)

module _ (legacy : Bool) (args : Args) where
  pub joined-batches :
      (n : ℕ) (ps : List Policy)
      → length ps ≤ 25 * n
      → joined_all legacy args (batches n ps) ≡ joined legacy args ps
  unfolding joined_all batches
  joined-batches zero ps h = sym (joined_nil legacy args ps (omega arith))
  joined-batches (suc n) ps h =
      rw (joined-batches n (drop 25 ps) (length-drop 25 (25 * n) ps (omega arith)))
        (joined-take legacy args 25 ps)

pub length-batches : (n : ℕ) (ps : List Policy) → length (batches n ps) ≡ n
unfolding batches
length-batches zero ps = refl
length-batches (suc n) ps = ap suc (length-batches n (drop 25 ps))
