-- ===== src/Policy/ParallelRuns.antt =====
-- policy/policy.go: the runs of `IsAllowedPar`: what they return beside `IsAllowedSerial`, and that
-- they go on and end.
use silo_pkg.Prelude.{
  ℕ, zero, suc, ◌+◌, ◌*◌, ◌<◌, ◌≡◌, ◌≢◌, refl, ap, ◌∙◌, Bool, List, [], ◌∷◌, length, length-append,
  ret, panic, arith, Option, none, some, true, inl, inr, Bool-cases,
}
use silo_pkg.Policy.Statement.{Args}
use silo_pkg.Policy.Decide.{
  Policy, Decision, no_decision, allow_decision, deny_decision, decide, is_allow, is_allowed_serial,
  policy_is_allowed,
}
use silo_pkg.Policy.Parallel.{
  Par, Step, start_worker, take_job, leave, abandon, send_result, collect, finish, wait, Reach,
  receive, par_start, ParReturns, no_policy, one_policy, many,
}
use silo_pkg.Policy.Verdicts.{AllDecide, AllJobs, joined, serial-joined, job-joined, decide-verdict}
use silo_pkg.Policy.Liveness.{Live, Reach-Live, start-Live}
use silo_pkg.Policy.Schedule.{Inv, start-Inv, Reach-Inv, length_middle}

module _ (legacy : Bool) (args : Args) where
  decided_allow :
      (p : Policy) (b : Bool)
      → decide legacy p args ≢ panic
      → policy_is_allowed legacy p args ≡ ret b
      → is_allow (joined legacy args (p ∷ [])) ≡ b
  unfolding policy_is_allowed joined
  decided_allow p b h e = ground (arith, decide-verdict legacy args p h)

  -- However the goroutines of `IsAllowedPar` are scheduled, whatever their number, what it returns is
  -- what `IsAllowedSerial` returns, if no policy's decision panics.
  pub parallel-serial :
      (procs : ℕ) (policies : List Policy) (b : Bool)
      → AllDecide legacy args policies
      → ParReturns legacy args procs policies b
      → is_allowed_serial legacy policies args ≡ ret b
  parallel-serial procs policies b h no_policy =
      serial-joined legacy args [] tt ∙ unfold joined in refl
  parallel-serial procs policies b h (one_policy p _ e) =
      serial-joined legacy args (p ∷ []) h ∙ ap ret (decided_allow p b h.0 e)
  parallel-serial procs policies b h (many p q ps s _ r e) =
      let total = joined legacy args (p ∷ q ∷ ps) in
      let i = Reach-Inv legacy args total (start-Inv legacy args procs (p ∷ q ∷ ps) h) r in
      serial-joined legacy args (p ∷ q ∷ ps) h ∙ ap ret (i.right b (i.last b e))

  Next : Par → Type 0
  Next s = (t : Par) × Step legacy args s t

  -- A worker that waits for a job takes one, or finds the channel empty and closed.
  idle_moves :
      (s : Par) (n : ℕ) (js : List (List Policy))
      → s.idle ≡ suc n
      → s.jobs ≡ js
      → s.closed ≡ true
      → Next s
  unfolding Next
  idle_moves s n [] e j c = (_, leave s n e j c)
  idle_moves s n (b ∷ js) e j c = (_, take_job s n b js e j)

  -- A worker with a job sends its result, for which there is room, or sees that the context is cancelled.
  busy_moves :
      (s : Par) (b : List Policy) (bs : List (List Policy))
      → s.busy ≡ b ∷ bs
      → AllJobs legacy args s.busy
      → length s.results < s.capacity
      → Next s
  unfolding Next
  busy_moves s b bs e h room = elim (Bool-cases s.cancelled) [
    | inl stop ↦ (_, abandon s [] b bs e stop)
    | inr _ ↦
        let h' : AllJobs legacy args (b ∷ bs) = rw e at h in
        (_, send_result s [] b bs (joined legacy args b) e (job-joined legacy args b h'.0) room)
  ]

  -- With no worker left, the function collects a result, ends its loop, or returns.
  main_moves :
      (s : Par) (total : Decision) (v : Option Bool) (ds : List Decision) (n : ℕ)
      → Inv legacy args total s
      → Live s
      → s.to_start ≡ 0
      → s.wg ≡ 0
      → s.returned ≡ none
      → s.verdict ≡ v
      → s.results ≡ ds
      → s.waiting ≡ n
      → Next s
  unfolding Next
  main_moves s total (some b) ds n i l z w r ev er ew = (_, wait s b r ev w)
  main_moves s total none ds zero i l z w r ev er ew = (_, finish s z ev ew)
  main_moves s total none (d ∷ ds) (suc n) i l z w r ev er ew = (_, collect s d ds n z ev ew er)
  main_moves s total none [] (suc n) i l z w r ev er ew =
      let manned = l.manned (i.going_on ev) in
      absurd (ground (arith, i.count ev, ap length er, l.wg_is, manned))

  -- In every state that the run comes to before it has returned, some step can be made, so nothing waits
  -- for ever, the workers for jobs and for room and the function for results and for the workers included,
  -- if there is a processor and no policy's decision panics.
  pub parallel_progress :
      (procs : ℕ) (policies : List Policy) (s : Par)
      → 0 < procs
      → AllDecide legacy args policies
      → Reach legacy args (par_start procs policies) s
      → s.returned ≡ none
      → (t : Par) × Step legacy args s t
  unfolding Next
  parallel_progress procs policies s p h r unreturned = go s.to_start s.idle s.busy refl refl refl
    where
      i : Inv legacy args (joined legacy args policies) s
      i =
          Reach-Inv legacy args (joined legacy args policies)
            (start-Inv legacy args procs policies h) r

      l : Live s
      l = Reach-Live legacy args (start-Live procs policies p) r

      go : (n k : ℕ) (bs : List (List Policy)) → s.to_start ≡ n → s.idle ≡ k → s.busy ≡ bs → Next s
      go (suc n) k bs en ek eb = (_, start_worker s n en)
      go zero (suc k) bs en ek eb = idle_moves s k s.jobs ek refl l.closed_is
      go zero zero (b ∷ bs) en ek eb =
          busy_moves s b bs eb i.busy_decide (omega (arith, l.room, ap length eb))
      go zero zero [] en ek eb =
          main_moves s (joined legacy args policies) s.verdict s.results s.waiting i l en
            (omega (arith, l.wg_is, ap length eb)) unreturned refl refl refl

-- What is left to do for something that is not yet there.
unmet : Option Bool → ℕ
unmet none = 1
unmet (some b) = 0

-- What a run has left to do.
pub work_left : Par → ℕ
unfolding unmet
work_left s =
    3 * length s.jobs
    + 3 * length s.busy
    + 2 * s.to_start
    + s.idle
    + length s.results
    + unmet s.verdict
    + unmet s.returned

-- Every step of a run of `IsAllowedPar`, those of the workers that leave included, lowers the work that is
-- left, so every schedule ends.
pub parallel_ends :
    {legacy : Bool} {args : Args} {s t : Par} → Step legacy args s t → work_left t < work_left s
unfolding work_left
parallel_ends (start_worker s n e) = omega arith
parallel_ends (take_job s n b js e f) = omega (arith, ap length f)
parallel_ends (leave s n e _ _) = omega arith
parallel_ends (abandon s front b behind e _) =
    omega (arith, ap length e, length_middle front b behind)
parallel_ends (send_result s front b behind d e _ _) =
    omega (arith, ap length e, length_middle front b behind, length-append s.results (d ∷ []))
parallel_ends (collect s deny_decision rs n _ u w e) = unfold receive in ground (arith, ap length e)
parallel_ends (collect s allow_decision rs n _ u w e) =
    unfold receive in ground (arith, ap length e)
parallel_ends (collect s no_decision rs n _ u w e) = unfold receive in ground (arith, ap length e)
parallel_ends (finish s _ u w) = ground arith
parallel_ends (wait s b u _ _) = ground arith
