-- ===== src/Policy/RunExamples.antt =====
-- policy/policy.go and policy/resource.go: the theorems on `IsAllowedPar` at a run of two policies,
-- and those on `ParseResource` at concrete texts.
use silo_pkg.Prelude.{
  ◌≡◌, ◌<◌, refl, true, false, [], ◌∷◌, ret, some, none, ◌≢◌, panic, arith, Outcome, List,
}
use silo_pkg.Prelude.Bytes.{Bytes, codes, contains_byte, eqb, has_prefix}
use silo_pkg.Policy.Resource.{
  ArnType, parse_resource, arn_prefix_to_type, resource_string, resource_is_valid, arn_s3,
  arn_s3tables, arn_kms, arn_all,
}
use silo_pkg.Policy.Decide.{
  Policy, Decision, decide, is_allowed_serial, allow_decision, no_decision,
}
use silo_pkg.Policy.Parallel.{
  Par, Step, start_worker, take_job, leave, send_result, collect, finish, wait, Reach, here, next,
  par_start, batches, num_jobs, num_workers, job_result, many, receive,
}
use silo_pkg.Policy.Verdicts.{AllDecide}
use silo_pkg.Policy.ParallelRuns.{parallel-serial, parallel_progress, parallel_ends, work_left}
use silo_pkg.Policy.ParseLoop.{IsOrder}
use silo_pkg.Policy.Parse.{
  parse_resource_order, parse_resource-resource_string, arn_prefix_to_type-IsOrder,
}
use silo_pkg.Policy.Samples.{objects, grants_objects, owner_request}

decides : decide false grants_objects owner_request ≡ ret allow_decision
unfolding decide eqb
decides = refl

decided : {o : Outcome Decision} {d : Decision} → o ≡ ret d → o ≢ panic
decided e h = cc

abbrev two : List Policy
two = grants_objects ∷ grants_objects ∷ []

two_decide : AllDecide false owner_request two
two_decide = (decided decides, (decided decides, tt))

abbrev start : Par
start = record {
  jobs = two ∷ [];
  closed = true;
  to_start = 1;
  idle = 0;
  busy = [];
  wg = 1;
  results = [];
  capacity = 2;
  cancelled = false;
  waiting = 1;
  got_allow = false;
  verdict = none;
  returned = none;
}

start_is : par_start 4 two ≡ start
unfolding par_start batches num_jobs num_workers
start_is = refl

-- The worker is started, takes the job and sends its result.
abbrev started : Par
started = record start { to_start = 0; idle = 1 }

abbrev taken : Par
taken = record started { jobs = []; idle = 0; busy = two ∷ [] }

abbrev sent : Par
sent = record taken { idle = 1; busy = []; results = allow_decision ∷ [] }

-- The result is collected and the loop ends; the worker leaves, and `wg.Wait` returns.
abbrev collected : Par
collected = record sent { results = []; waiting = 0; got_allow = true }

abbrev found : Par
found = record collected { verdict = some true }

abbrev left : Par
left = record found { idle = 0; wg = 0 }

abbrev returned_true : Par
returned_true = record left { returned = some true }

result : job_result false owner_request two no_decision ≡ ret allow_decision
unfolding job_result
result = rw (decides) (rw decides refl)

up_to_sent : Reach false owner_request start sent
up_to_sent =
    next (next (next here (start_worker start 0 refl)) (take_job started 0 two [] refl refl))
      (send_result taken [] two [] allow_decision refl result (omega arith))

leaving : Step false owner_request found left
leaving = leave found 0 refl refl refl

run : Reach false owner_request start returned_true
unfolding receive
run =
    next
      (next
        (next (next up_to_sent (collect sent allow_decision [] 0 refl refl refl refl))
          (finish collected refl refl refl))
        leaving)
      (wait left true refl refl refl)

parallel-serial_example : is_allowed_serial false two owner_request ≡ ret true
parallel-serial_example =
    parallel-serial false owner_request 4 two true two_decide
      (many grants_objects grants_objects [] returned_true true (rw start_is run) refl)

parallel_progress_example : (t : Par) × Step false owner_request sent t
parallel_progress_example =
    parallel_progress false owner_request 4 two sent (omega arith) two_decide
      (rw start_is up_to_sent) refl

parallel_ends_example : work_left left < work_left found
parallel_ends_example = parallel_ends leaving

-- The entries of the map, the last one first.
abbrev last_first : List (Bytes × ArnType)
last_first =
    (codes "*", arn_all)
    ∷ (codes "arn:aws:s3:::", arn_s3)
    ∷ (codes "arn:aws:s3tables:::", arn_s3tables)
    ∷ (codes "arn:minio:kms:::", arn_kms)
    ∷ []

last_first-IsOrder : IsOrder last_first
unfolding arn_prefix_to_type
last_first-IsOrder = (λ e i. ground arith, λ e i. ground arith)

parse_resource_order_example :
    parse_resource last_first (codes "arn:aws:s3:::mybucket/*")
    ≡ parse_resource arn_prefix_to_type (codes "arn:aws:s3:::mybucket/*")
parse_resource_order_example =
    parse_resource_order last_first (codes "arn:aws:s3:::mybucket/*") last_first-IsOrder

parse_resource-resource_string_example :
    parse_resource arn_prefix_to_type (resource_string objects) ≡ some objects
unfolding resource_is_valid contains_byte has_prefix
parse_resource-resource_string_example =
    parse_resource-resource_string arn_prefix_to_type objects arn_prefix_to_type-IsOrder refl
