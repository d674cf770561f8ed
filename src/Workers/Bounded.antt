-- ===== src/Workers/Bounded.antt =====
-- workers/workers.go: at most as many jobs run as the pool was made for, and the wait is for all of them.
use silo_pkg.Prelude.{
  ℕ, zero, suc, ◌+◌, ◌-◌, ◌*◌, ◌<◌, ◌≤◌, ◌≡◌, refl, sym, ◌∙◌, true, some, ◌⊎◌, inl, inr, arith, ◌↔◌,
}
use mathlib.Core.Path.{subst}
use silo_pkg.Prelude.Ints.{pos}
use silo_pkg.Workers.Pool.{
  Workers, new_workers, PoolStep, take_adds, take_receives, give_sends, give_done, PoolSteps, here,
  then, wait_returns,
}

-- Every token is in the queue or with a job that runs, and the counter is that of the jobs.
pub record IsSound (n : ℕ) (s : Workers) : Type 0 where
  pub sized : s.capacity ≡ n
  pub tokens : s.queue + s.running ≡ n
  pub counted : s.wg ≡ s.taking + s.running + s.giving

step-IsSound : (n : ℕ) (s t : Workers) → IsSound n s → PoolStep s t → IsSound n t
step-IsSound n s t h take_adds = record {
  sized = h.sized;
  tokens = h.tokens;
  counted = omega (arith, h.counted);
}
step-IsSound n s t h (take_receives tokens jobs q k) = record {
  sized = h.sized;
  tokens = omega (arith, h.tokens, q);
  counted = omega (arith, h.counted, k);
}
step-IsSound n s t h (give_sends jobs r room) = record {
  sized = h.sized;
  tokens = omega (arith, h.tokens, r);
  counted = omega (arith, h.counted, r);
}
step-IsSound n s t h (give_done count jobs w g) = record {
  sized = h.sized;
  tokens = h.tokens;
  counted = omega (arith, h.counted, w, g);
}

steps-IsSound : (n : ℕ) (s t : Workers) → IsSound n s → PoolSteps s t → IsSound n t
steps-IsSound n s t h (here _) = h
steps-IsSound n s t h (then _ m _ run last) = step-IsSound n m t (steps-IsSound n s m h run) last

new_workers-IsSound : (n : ℕ) (s : Workers) → new_workers (pos n) ≡ some s → IsSound n s
unfolding new_workers
new_workers-IsSound zero s e = cc
new_workers-IsSound (suc n) s e =
    let fresh : record {
      capacity = suc n;
      queue = suc n;
      wg = 0;
      taking = 0;
      running = 0;
      giving = 0;
    }
        ≡ s =
      cc in
    subst (IsSound (suc n)) fresh (record { sized = refl; tokens = omega arith; counted = refl })

new_workers_positive : (n : ℕ) (s : Workers) → new_workers (pos n) ≡ some s → 0 < n
unfolding new_workers
new_workers_positive zero s e = cc
new_workers_positive (suc n) s e = omega arith

-- What is left to do for the jobs that there are.
abbrev pub work : Workers → ℕ
work s = 3 * s.taking + 2 * s.running + s.giving

-- A pool with jobs can go on with one of them.
goes_on :
    (n : ℕ) (s : Workers)
    → 0 < n
    → IsSound n s
    → (work s ≡ 0) ⊎ ((t : Workers) × PoolStep s t × (work t < work s))
goes_on n s positive h = by_counts s.giving s.running s.taking refl refl refl
  where
    by_counts :
        (g r k : ℕ)
        → s.giving ≡ g
        → s.running ≡ r
        → s.taking ≡ k
        → (work s ≡ 0) ⊎ ((t : Workers) × PoolStep s t × (work t < work s))
    by_counts (suc g) r k eg er ek =
        let counter : s.wg ≡ suc (s.taking + s.running + g) = omega (arith, h.counted, eg) in
        inr (_, give_done (s.taking + s.running + g) g counter eg, omega (arith, eg))
    by_counts zero (suc r) k eg er ek =
        let room : s.queue < s.capacity = omega (arith, h.tokens, h.sized, er) in
        inr (_, give_sends r er room, omega (arith, er))
    by_counts zero zero (suc k) eg er ek =
        let full : s.queue ≡ suc (s.queue - 1) = omega (arith, h.tokens, er, positive) in
        inr (_, take_receives (s.queue - 1) k full ek, omega (arith, ek))
    by_counts zero zero zero eg er ek = inl (omega (arith, eg, er, ek))

waits : (s : Workers) → (wait_returns s ≡ true) ↔ (s.wg ≡ 0)
unfolding wait_returns
waits s = (λ e. ground arith, λ e. ground arith)

-- In a pool made for n jobs, after any actions of the jobs in any order, at most n jobs run; the wait returns
-- exactly if no job is in Take, runs or is in Give; and if there is such a job, one of them can take its next
-- action, behind which there is less to do for the jobs that there are.
pub new_workers-bounded :
    (n : ℕ) (s t : Workers)
    → new_workers (pos n) ≡ some s
    → PoolSteps s t
    → (t.running ≤ n)
      × ((wait_returns t ≡ true) ↔ (t.taking + t.running + t.giving ≡ 0))
      × ((work t ≡ 0) ⊎ ((u : Workers) × PoolStep t u × (work u < work t)))
new_workers-bounded n s t e run =
    let h = steps-IsSound n s t (new_workers-IsSound n s e) run in
    let w = waits t in
    (
      omega (arith, h.tokens),
      (λ r. sym h.counted ∙ w.0 r, λ r. w.1 (h.counted ∙ r)),
      goes_on n t (new_workers_positive n s e) h,
    )
