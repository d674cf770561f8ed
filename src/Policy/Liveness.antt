-- ===== src/Policy/Liveness.antt =====
-- policy/policy.go: the workers, the channels and the WaitGroup of `IsAllowedPar`, as an
-- invariant of its runs.
use silo_pkg.Prelude.{
  ℕ, ◌+◌, ◌<◌, ◌≤◌, ◌≡◌, refl, ap, Bool, true, false, List, [], ◌∷◌, length, length-append, arith,
}
use silo_pkg.Policy.Statement.{Args}
use silo_pkg.Policy.Decide.{Policy, Decision, no_decision, allow_decision, deny_decision}
use silo_pkg.Policy.Parallel.{
  Par, Step, start_worker, take_job, leave, abandon, send_result, collect, finish, wait, Reach,
  here, next, receive, par_start, num_jobs, num_workers,
}
use silo_pkg.Policy.Verdicts.{length-batches}
use silo_pkg.Policy.Schedule.{length_middle}

-- The counter of the WaitGroup is the number of the workers that have not left; `resultCh` has room for
-- all results that may still come; and while jobs are left and the context is not cancelled, so is a
-- worker.
pub record Live (s : Par) : Type 0 where
  pub closed_is : s.closed ≡ true
  pub wg_is : s.wg ≡ s.to_start + s.idle + length s.busy
  pub room : length s.jobs + length s.busy + length s.results ≤ s.capacity
  pub manned : s.cancelled ≡ false → 0 < length s.jobs → 0 < s.wg

collect_Live :
    (s : Par) (d : Decision) (rs : List Decision) (n : ℕ)
    → s.results ≡ d ∷ rs
    → Live s
    → Live (receive d (record s { results = rs; waiting = n }))
unfolding receive
collect_Live s deny_decision rs n e l = record {
  closed_is = l.closed_is;
  wg_is = l.wg_is;
  room = omega (arith, l.room, ap length e);
  manned = λ h. cc;
}
collect_Live s allow_decision rs n e l = record {
  closed_is = l.closed_is;
  wg_is = l.wg_is;
  room = omega (arith, l.room, ap length e);
  manned = l.manned;
}
collect_Live s no_decision rs n e l = record {
  closed_is = l.closed_is;
  wg_is = l.wg_is;
  room = omega (arith, l.room, ap length e);
  manned = l.manned;
}

module _ (legacy : Bool) (args : Args) where
  Step-Live : {s t : Par} → Step legacy args s t → Live s → Live t
  Step-Live (start_worker s n e) l = record {
    closed_is = l.closed_is;
    wg_is = omega (arith, l.wg_is);
    room = l.room;
    manned = l.manned;
  }
  Step-Live (take_job s n b js e f) l = record {
    closed_is = l.closed_is;
    wg_is = omega (arith, l.wg_is);
    room = omega (arith, l.room, ap length f);
    manned = λ h k. omega (arith, l.wg_is);
  }
  Step-Live (leave s n e f _) l = record {
    closed_is = l.closed_is;
    wg_is = omega (arith, l.wg_is);
    room = l.room;
    manned = λ h k. absurd (omega (arith, ap length f));
  }
  Step-Live (abandon s front b behind e cancelled) l = record {
    closed_is = l.closed_is;
    wg_is = omega (arith, l.wg_is, ap length e, length_middle front b behind);
    room = omega (arith, l.room, ap length e, length_middle front b behind);
    manned = λ h. cc;
  }
  Step-Live (send_result s front b behind d e _ _) l = record {
    closed_is = l.closed_is;
    wg_is = omega (arith, l.wg_is, ap length e, length_middle front b behind);
    room = omega (
      arith,
      l.room,
      ap length e,
      length_middle front b behind,
      length-append s.results (d ∷ []),
    );
    manned = l.manned;
  }
  Step-Live (collect s d rs n _ _ _ e) l = collect_Live s d rs n e l
  Step-Live (finish s _ _ _) l = record {
    closed_is = l.closed_is;
    wg_is = l.wg_is;
    room = l.room;
    manned = l.manned;
  }
  Step-Live (wait s b _ _ _) l = record {
    closed_is = l.closed_is;
    wg_is = l.wg_is;
    room = l.room;
    manned = l.manned;
  }

  pub Reach-Live : {s t : Par} → Live s → Reach legacy args s t → Live t
  Reach-Live l here = l
  Reach-Live l (next r st) = Step-Live st (Reach-Live l r)

pub start-Live : (procs : ℕ) (policies : List Policy) → 0 < procs → Live (par_start procs policies)
unfolding par_start num_jobs num_workers
start-Live procs policies p = record {
  closed_is = refl;
  wg_is = omega arith;
  room = omega (arith, length-batches (num_jobs policies) policies);
  manned = λ _ k. ground (arith, length-batches (num_jobs policies) policies);
}
