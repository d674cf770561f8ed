-- ===== src/Workers/Examples.antt =====
-- workers/workers.go: the theorem at a pool for two jobs of which one runs.
use silo_pkg.Prelude.{◌+◌, ◌<◌, ◌≤◌, ◌≡◌, refl, ◌↔◌, ◌⊎◌, true, some, none}
use silo_pkg.Prelude.Ints.{pos, negsuc}
use silo_pkg.Workers.Pool.{
  Workers, new_workers, PoolStep, take_adds, take_receives, PoolSteps, here, then, wait_returns,
}
use silo_pkg.Workers.Bounded.{work, new_workers-bounded}

no_pool : new_workers (negsuc 0) ≡ none
unfolding new_workers
no_pool = refl

abbrev fresh : Workers
fresh = record { capacity = 2; queue = 2; wg = 0; taking = 0; running = 0; giving = 0 }

abbrev added : Workers
added = record { capacity = 2; queue = 2; wg = 1; taking = 1; running = 0; giving = 0 }

abbrev one_runs : Workers
one_runs = record { capacity = 2; queue = 1; wg = 1; taking = 0; running = 1; giving = 0 }

made : new_workers (pos 2) ≡ some fresh
unfolding new_workers
made = refl

taken : PoolSteps fresh one_runs
taken =
    then fresh added one_runs (then fresh fresh added (here fresh) take_adds)
      (take_receives 1 0 refl refl)

new_workers-bounded_example :
    (one_runs.running ≤ 2)
    × ((wait_returns one_runs ≡ true) ↔ (one_runs.taking + one_runs.running + one_runs.giving ≡ 0))
    × ((work one_runs ≡ 0) ⊎ ((u : Workers) × PoolStep one_runs u × (work u < work one_runs)))
new_workers-bounded_example = new_workers-bounded 2 fresh one_runs made taken
