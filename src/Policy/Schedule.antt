-- ===== src/Policy/Schedule.antt =====
-- policy/policy.go: the invariant of the goroutines of `IsAllowedPar`: what has been collected and
-- what is still to come, joined, is the joint decision of all policies.
use silo_pkg.Prelude.{
  ℕ, suc, ◌+◌, ◌≡◌, refl, sym, ap, ◌∙◌, Bool, true, false, List, [], ◌∷◌, ◌++◌, length,
  length-append, ret, arith, none, some,
}
use silo_pkg.Policy.Statement.{Args}
use silo_pkg.Policy.Decide.{Policy, Decision, no_decision, allow_decision, deny_decision, is_allow}
use silo_pkg.Policy.Parallel.{
  Par, Step, start_worker, take_job, leave, abandon, send_result, collect, finish, wait, Reach,
  here, next, receive, par_start, num_jobs, job_result,
}
use silo_pkg.Policy.Verdicts.{
  join, join_comm, join_assoc, AllDecide, AllJobs, joined, joined_all, job-joined, AllJobs-batches,
  joined-batches, length-batches,
}

pub all_results : List Decision → Decision
all_results [] = no_decision
all_results (d ∷ ds) = join d (all_results ds)

results-snoc :
    (ds : List Decision) (d : Decision) → all_results (ds ++ d ∷ []) ≡ join d (all_results ds)
unfolding all_results
results-snoc [] d = refl
results-snoc (c ∷ ds) d = rw (results-snoc ds d) (
    ground (arith, join_comm c d, join_assoc c d (all_results ds), join_assoc d c (all_results ds)))

pub so_far : Bool → Decision
so_far true = allow_decision
so_far false = no_decision

pub length_middle :
    (front : List (List Policy)) (b : List Policy) (behind : List (List Policy))
    → length (front ++ b ∷ behind) ≡ suc (length (front ++ behind))
length_middle [] b behind = refl
length_middle (c ∷ front) b behind = ap suc (length_middle front b behind)

module _ (legacy : Bool) (args : Args) where
  joined_middle :
      (front : List (List Policy)) (b : List Policy) (behind : List (List Policy))
      → joined_all legacy args (front ++ b ∷ behind)
        ≡ join (joined legacy args b) (joined_all legacy args (front ++ behind))
  unfolding joined_all
  joined_middle [] b behind = refl
  joined_middle (c ∷ front) b behind =
      let x = joined legacy args c in
      let y = joined legacy args b in
      let z = joined_all legacy args (front ++ behind) in
      rw (joined_middle front b behind)
        (sym (join_assoc x y z) ∙ ap (λ d. join d z) (join_comm x y) ∙ join_assoc y x z)

  AllJobs-middle :
      (front : List (List Policy)) (b : List Policy) (behind : List (List Policy))
      → AllJobs legacy args (front ++ b ∷ behind)
      → AllDecide legacy args b × AllJobs legacy args (front ++ behind)
  AllJobs-middle [] b behind h = h
  AllJobs-middle (c ∷ front) b behind h =
      let (one, rest) = AllJobs-middle front b behind h.1 in (one, (h.0, rest))

  -- All that is still to be collected, with what has been.
  pub outstanding : Par → Decision
  unfolding all_results so_far
  outstanding s = join (so_far s.got_allow) (
      join (all_results s.results)
        (join (joined_all legacy args s.busy) (joined_all legacy args s.jobs)))

  module _ (total : Decision) where
    pub record Inv (s : Par) : Type 0 where
      pub jobs_decide : AllJobs legacy args s.jobs
      pub busy_decide : AllJobs legacy args s.busy
      pub going_on : s.verdict ≡ none → s.cancelled ≡ false
      pub count : s.verdict ≡ none → s.waiting ≡ length s.jobs + length s.busy + length s.results
      pub rest : s.verdict ≡ none → outstanding s ≡ total
      pub right : (b : Bool) → s.verdict ≡ some b → is_allow total ≡ b
      pub last : (b : Bool) → s.returned ≡ some b → s.verdict ≡ some b

    take_total :
        (s : Par) (b : List Policy) (js : List (List Policy)) (n : ℕ)
        → s.jobs ≡ b ∷ js
        → outstanding (record s { jobs = js; idle = n; busy = b ∷ s.busy }) ≡ outstanding s
    unfolding outstanding joined_all
    take_total s b js n e =
        let x = joined legacy args b in
        let y = joined_all legacy args s.busy in
        let z = joined_all legacy args js in
        ap (λ d. join (so_far s.got_allow) (join (all_results s.results) d))
          (ap (λ d. join d z) (join_comm x y) ∙ join_assoc y x z ∙ rw e refl)

    send_total :
        (s : Par) (front : List (List Policy)) (b : List Policy) (behind : List (List Policy))
        (d : Decision)
        → s.busy ≡ front ++ b ∷ behind
        → d ≡ joined legacy args b
        → outstanding
            (record s { idle = suc s.idle; busy = front ++ behind; results = s.results ++ d ∷ [] })
          ≡ outstanding s
    unfolding outstanding
    send_total s front b behind d e f =
        let r = all_results s.results in
        let y = joined_all legacy args (front ++ behind) in
        let z = joined_all legacy args s.jobs in
        ap (join (so_far s.got_allow)) (
          ap (λ c. join c (join y z)) (results-snoc s.results d ∙ join_comm d r)
          ∙ join_assoc r d (join y z)
          ∙ ap (join r) (
              sym (join_assoc d y z)
              ∙ ap (λ c. join c z)
                  (ap (λ c. join c y) f
                    ∙ sym (joined_middle front b behind)
                    ∙ ap (joined_all legacy args) (sym e))))

    collect_Inv :
        (s : Par) (d : Decision) (rs : List Decision) (n : ℕ)
        → s.verdict ≡ none
        → s.waiting ≡ suc n
        → s.results ≡ d ∷ rs
        → Inv s
        → Inv (receive d (record s { results = rs; waiting = n }))
    unfolding receive outstanding all_results so_far
    collect_Inv s deny_decision rs n undecided w e i = record {
      going_on = λ h. cc;
      last = λ b h. cc (i.last b h);
      jobs_decide = i.jobs_decide;
      busy_decide = i.busy_decide;
      count = λ h. cc;
      rest = λ h. cc;
      right = λ b h. ground (arith, i.rest undecided);
    }
    collect_Inv s allow_decision rs n undecided w e i = record {
      going_on = i.going_on;
      last = i.last;
      jobs_decide = i.jobs_decide;
      busy_decide = i.busy_decide;
      count = λ h. omega (arith, i.count undecided, ap length e);
      rest = λ h. ground (arith, i.rest undecided);
      right = λ b h. cc;
    }
    collect_Inv s no_decision rs n undecided w e i = record {
      going_on = i.going_on;
      last = i.last;
      jobs_decide = i.jobs_decide;
      busy_decide = i.busy_decide;
      count = λ h. omega (arith, i.count undecided, ap length e);
      rest = λ h. ground (arith, i.rest undecided);
      right = λ b h. cc;
    }

    job_value :
        (b : List Policy) (d : Decision)
        → AllDecide legacy args b
        → job_result legacy args b no_decision ≡ ret d
        → d ≡ joined legacy args b
    job_value b d h e = cc (job-joined legacy args b h)

    no_jobs : (bs : List (List Policy)) → length bs ≡ 0 → joined_all legacy args bs ≡ no_decision
    unfolding joined_all
    no_jobs [] h = refl
    no_jobs (b ∷ bs) h = absurd (omega arith)

    no_results : (ds : List Decision) → length ds ≡ 0 → all_results ds ≡ no_decision
    unfolding all_results
    no_results [] h = refl
    no_results (d ∷ ds) h = absurd (omega arith)

    finish_right :
        (s : Par) → s.verdict ≡ none → s.waiting ≡ 0 → Inv s → is_allow total ≡ s.got_allow
    unfolding outstanding so_far
    finish_right s undecided w i = ground (
      arith,
      i.rest undecided,
      i.count undecided,
      no_jobs s.jobs,
      no_jobs s.busy,
      no_results s.results,
    )

    Step-Inv : {s t : Par} → Step legacy args s t → Inv s → Inv t
    unfolding outstanding
    Step-Inv (start_worker s n e) i = record {
      jobs_decide = i.jobs_decide;
      busy_decide = i.busy_decide;
      going_on = i.going_on;
      count = i.count;
      rest = i.rest;
      right = i.right;
      last = i.last;
    }
    Step-Inv (take_job s n b js _ e) i =
        let decide_all : AllJobs legacy args (b ∷ js) = rw e at i.jobs_decide in
        record {
          jobs_decide = decide_all.1;
          busy_decide = (decide_all.0, i.busy_decide);
          going_on = i.going_on;
          count = λ h. omega (arith, i.count h, ap length e);
          rest = λ h. take_total s b js n e ∙ i.rest h;
          right = i.right;
          last = i.last;
        }
    Step-Inv (leave s n _ _ _) i = record {
      jobs_decide = i.jobs_decide;
      busy_decide = i.busy_decide;
      going_on = i.going_on;
      count = i.count;
      rest = i.rest;
      right = i.right;
      last = i.last;
    }
    Step-Inv (abandon s front b behind e cancelled) i = record {
      jobs_decide = i.jobs_decide;
      busy_decide = (AllJobs-middle front b behind (rw e at i.busy_decide)).1;
      going_on = i.going_on;
      count = λ h. cc (i.going_on h);
      rest = λ h. cc (i.going_on h);
      right = i.right;
      last = i.last;
    }
    Step-Inv (send_result s front b behind d e done _) i =
        let (one, others) = AllJobs-middle front b behind (rw e at i.busy_decide) in
        record {
          jobs_decide = i.jobs_decide;
          busy_decide = others;
          going_on = i.going_on;
          count = λ h. omega (
            arith,
            i.count h,
            ap length e,
            length_middle front b behind,
            length-append s.results (d ∷ []),
          );
          rest = λ h. send_total s front b behind d e (job_value b d one done) ∙ i.rest h;
          right = i.right;
          last = i.last;
        }
    Step-Inv (collect s d rs n _ undecided w e) i = collect_Inv s d rs n undecided w e i
    Step-Inv (finish s _ undecided w) i = record {
      jobs_decide = i.jobs_decide;
      busy_decide = i.busy_decide;
      going_on = λ h. cc;
      count = λ h. cc;
      rest = λ h. cc;
      right = λ b h. cc (finish_right s undecided w i);
      last = λ b h. cc (i.last b h);
    }
    Step-Inv (wait s b _ e _) i = record {
      jobs_decide = i.jobs_decide;
      busy_decide = i.busy_decide;
      going_on = i.going_on;
      count = i.count;
      rest = i.rest;
      right = i.right;
      last = λ c h. cc;
    }

    pub Reach-Inv : {s t : Par} → Inv s → Reach legacy args s t → Inv t
    Reach-Inv i here = i
    Reach-Inv i (next r st) = Step-Inv st (Reach-Inv i r)

  pub start-Inv :
      (procs : ℕ) (policies : List Policy)
      → AllDecide legacy args policies
      → Inv (joined legacy args policies) (par_start procs policies)
  unfolding par_start outstanding num_jobs
  start-Inv procs policies h = record {
    jobs_decide = AllJobs-batches legacy args _ policies h;
    busy_decide = tt;
    going_on = λ _. refl;
    count = λ _. omega (arith, length-batches (num_jobs policies) policies);
    rest = λ _.
        unfold all_results so_far joined_all in
        joined-batches legacy args (num_jobs policies) policies (omega arith);
    right = λ b e. cc;
    last = λ b e. cc;
  }
