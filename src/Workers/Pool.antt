-- ===== src/Workers/Pool.antt =====
-- workers/workers.go: the pool as a relation of steps. A job calls Take, runs, and calls Give; the
-- calls of all jobs are in any order. The channel is the number of the tokens in it.
use silo_pkg.Prelude.{
  ℕ, zero, suc, ◌<◌, ◌≡◌, Bool, true, false, ltb, Option, none, some, if◌then◌else◌,
}
use silo_pkg.Prelude.Ints.{ℤ, pos, negsuc}

-- `Workers`: the capacity and the length of `queue`, and the counter of `wg`; and how many jobs there are in
-- Take behind wg.Add, between Take and Give, and in Give behind the send
pub record Workers : Type 0 where
  pub capacity : ℕ
  pub queue : ℕ
  pub wg : ℕ
  pub taking : ℕ
  pub running : ℕ
  pub giving : ℕ

-- `New`, with a queue that is filled; `none` is the error for n <= 0
unfoldable pub new_workers : ℤ → Option Workers
new_workers (negsuc n) = none
new_workers (pos zero) = none
new_workers (pos (suc n)) =
    some (record { capacity = suc n; queue = suc n; wg = 0; taking = 0; running = 0; giving = 0 })

-- One action of a job.
pub data PoolStep (s : Workers) : Workers → Type 0 where
  -- `wg.Add(1)` of `Take`
  take_adds : PoolStep s (record s { wg = suc s.wg; taking = suc s.taking })
  -- the receive of `Take`, which waits for a token
  take_receives :
      (tokens jobs : ℕ)
      → s.queue ≡ suc tokens
      → s.taking ≡ suc jobs
      → PoolStep s (record s { queue = tokens; taking = jobs; running = suc s.running })
  -- the send of `Give`, which waits for a place
  give_sends :
      (jobs : ℕ)
      → s.running ≡ suc jobs
      → s.queue < s.capacity
      → PoolStep s (record s { queue = suc s.queue; running = jobs; giving = suc s.giving })
  -- `wg.Done` of `Give`
  give_done :
      (count jobs : ℕ)
      → s.wg ≡ suc count
      → s.giving ≡ suc jobs
      → PoolStep s (record s { wg = count; giving = jobs })

-- Any number of actions.
pub data PoolSteps : Workers → Workers → Type 0 where
  here : (s : Workers) → PoolSteps s s
  then : (s t u : Workers) → PoolSteps s t → PoolStep t u → PoolSteps s u

-- `Wait` returns when the counter is zero.
unfoldable pub wait_returns : Workers → Bool
wait_returns s = if ltb 0 s.wg then false else true
