-- ===== src/Policy/Parallel.antt =====
-- policy/policy.go: `IsAllowedPar`. The goroutines are steps that happen in any order.
use silo_pkg.Prelude.{
  ℕ, zero, suc, ◌+◌, ◌-◌, ◌/◌, ◌<◌, ◌≡◌, Bool, true, false, List, [], ◌∷◌, ◌++◌, length, take, drop,
  Option, none, some, ltb, if◌then◌else◌, Outcome, ret, ◌>>=◌,
}
use silo_pkg.Policy.Statement.{Args}
use silo_pkg.Policy.Decide.{
  Policy, Decision, no_decision, allow_decision, deny_decision, decide, policy_is_allowed,
}

-- `numPoliciesPerWorker`
abbrev pub policies_per_worker : ℕ
policies_per_worker = 25

-- The policies of each job: `policies[i:maxJ]` for i = 0, 25, …
unfoldable pub batches : ℕ → List Policy → List (List Policy)
batches zero policies = []
batches (suc jobs) policies =
    take policies_per_worker policies ∷ batches jobs (drop policies_per_worker policies)

-- `numJobs`
unfoldable pub num_jobs : List Policy → ℕ
num_jobs policies = (length policies + policies_per_worker - 1) / policies_per_worker

-- The loop of a worker over the policies of one job, with `res`.
unfoldable pub job_result : Bool → Args → List Policy → Decision → Outcome Decision
job_result legacy args [] res = ret res
job_result legacy args (p ∷ policies) res = decide legacy p args >>= elim [
  | deny_decision ↦ ret deny_decision
  | allow_decision ↦ job_result legacy args policies allow_decision
  | no_decision ↦ job_result legacy args policies res
]

-- The channels, the workers, the WaitGroup, the context, and the loop that collects the results.
pub record Par : Type 0 where
  -- the jobs in the channel `jobs`, and whether it is closed
  pub jobs : List (List Policy)
  pub closed : Bool
  -- the goroutines that are still to be started
  pub to_start : ℕ
  -- the workers that wait for a job
  pub idle : ℕ
  -- the jobs that a worker has taken and not finished
  pub busy : List (List Policy)
  -- the counter of `wg`
  pub wg : ℕ
  -- the results in the channel `resultCh`, and how many it has room for
  pub results : List Decision
  pub capacity : ℕ
  -- whether `ctx` is cancelled
  pub cancelled : Bool
  -- the rounds that the collecting loop has left
  pub waiting : ℕ
  pub got_allow : Bool
  -- what the function returns as soon as `wg.Wait` does
  pub verdict : Option Bool
  -- what the function has returned
  pub returned : Option Bool

-- `numWorkers`, where `procs` is runtime.GOMAXPROCS(0)
unfoldable pub num_workers : ℕ → List Policy → ℕ
unfolding num_jobs
num_workers procs policies = if ltb procs (num_jobs policies) then procs else num_jobs policies

-- The state behind `wg.Add`: `jobs`, which has room for them, holds all jobs and is closed.
unfoldable pub par_start : ℕ → List Policy → Par
unfolding batches num_jobs num_workers
par_start procs policies = record {
  jobs = batches (num_jobs policies) policies;
  closed = true;
  to_start = num_workers procs policies;
  idle = 0;
  busy = [];
  wg = num_workers procs policies;
  results = [];
  capacity = length policies;
  cancelled = false;
  waiting = num_jobs policies;
  got_allow = false;
  verdict = none;
  returned = none;
}

-- the body of the collecting loop, up to `wg.Wait`
unfoldable pub receive : Decision → Par → Par
receive deny_decision s = record s { cancelled = true; verdict = some false }
receive allow_decision s = record s { got_allow = true }
receive no_decision s = s

-- The steps of the goroutines: of the workers, which leave with `wg.Done`, and of the function.
pub data Step (legacy : Bool) (args : Args) : Par → Par → Type 0 where
  start_worker :
      (s : Par) (n : ℕ)
      → s.to_start ≡ suc n
      → Step legacy args s (record s { to_start = n; idle = suc s.idle })
  take_job :
      (s : Par) (n : ℕ) (b : List Policy) (js : List (List Policy))
      → s.idle ≡ suc n
      → s.jobs ≡ b ∷ js
      → Step legacy args s (record s { jobs = js; idle = n; busy = b ∷ s.busy })
  -- the loop of a worker is over only when the channel is empty and closed
  leave :
      (s : Par) (n : ℕ)
      → s.idle ≡ suc n
      → s.jobs ≡ []
      → s.closed ≡ true
      → Step legacy args s (record s { idle = n; wg = s.wg - 1 })
  -- A worker with a job comes to one of its two `select`s and the context is cancelled. (The first one
  -- leaves no choice then; that the worker may send all the same adds runs that send a result which
  -- nothing collects.)
  abandon :
      (s : Par) (front : List (List Policy)) (b : List Policy) (behind : List (List Policy))
      → s.busy ≡ front ++ b ∷ behind
      → s.cancelled ≡ true
      → Step legacy args s (record s { busy = front ++ behind; wg = s.wg - 1 })
  send_result :
      (s : Par) (front : List (List Policy)) (b : List Policy) (behind : List (List Policy))
      (d : Decision)
      → s.busy ≡ front ++ b ∷ behind
      → job_result legacy args b no_decision ≡ ret d
      → length s.results < s.capacity
      → Step legacy args s
          (record s { idle = suc s.idle; busy = front ++ behind; results = s.results ++ d ∷ [] })
  collect :
      (s : Par) (d : Decision) (rs : List Decision) (n : ℕ)
      → s.to_start ≡ 0
      → s.verdict ≡ none
      → s.waiting ≡ suc n
      → s.results ≡ d ∷ rs
      → Step legacy args s (receive d (record s { results = rs; waiting = n }))
  finish :
      (s : Par)
      → s.to_start ≡ 0
      → s.verdict ≡ none
      → s.waiting ≡ 0
      → Step legacy args s (record s { verdict = some s.got_allow })
  -- `wg.Wait` and the return behind it
  wait :
      (s : Par) (b : Bool)
      → s.returned ≡ none
      → s.verdict ≡ some b
      → s.wg ≡ 0
      → Step legacy args s (record s { returned = some b })

pub data Reach (legacy : Bool) (args : Args) (s : Par) : Par → Type 0 where
  here : Reach legacy args s s
  next : {t u : Par} → Reach legacy args s t → Step legacy args t u → Reach legacy args s u

-- The function returns b: at once for no policy or for one, else by the steps above.
pub data ParReturns (legacy : Bool) (args : Args) (procs : ℕ) : List Policy → Bool → Type 0 where
  no_policy : ParReturns legacy args procs [] false
  one_policy :
      (p : Policy) (b : Bool)
      → policy_is_allowed legacy p args ≡ ret b
      → ParReturns legacy args procs (p ∷ []) b
  many :
      (p q : Policy) (policies : List Policy) (s : Par) (b : Bool)
      → Reach legacy args (par_start procs (p ∷ q ∷ policies)) s
      → s.returned ≡ some b
      → ParReturns legacy args procs (p ∷ q ∷ policies) b
