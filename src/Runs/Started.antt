-- ===== src/Runs/Started.antt =====
-- What the controllers of both kinds of run start with.
use tektoncd_pruner.Prelude.{String, ℕ, ◌<◌, ◌^◌, ℤ, pos, ◌≡◌, refl, arith}
use tektoncd_pruner.Go.Decimal.{itoa}
use tektoncd_pruner.Go.Decimal.RoundTrip.{atoi-itoa}
use tektoncd_pruner.Go.Exec.{Result, ok}
use tektoncd_pruner.Kube.Api.{Platform}
use tektoncd_pruner.Config.Workers.{
  get_env_value_as_int, env_ttl_concurrent_workers_pipeline_run,
  env_ttl_concurrent_workers_task_run, default_ttl_concurrent_workers_pipeline_run,
  default_ttl_concurrent_workers_task_run,
}
use tektoncd_pruner.History.Limit.{new_history_limiter}
use tektoncd_pruner.Ttl.Annotation.{new_ttl_handler}
use tektoncd_pruner.Ttl.Value.{itoa_nonempty}
use tektoncd_pruner.Runs.States.{pr_limiter, tr_limiter, pr_handler, tr_handler}
use tektoncd_pruner.World.{World}
use tektoncd_pruner.Runs.Controllers.{
  Reconciler, ControllerOptions, controller_of, new_pipeline_run_controller,
  new_task_run_controller,
}

pub env_value_of_itoa :
    (getenv : String → String) (key : String) (default_value : ℤ) (n : ℕ)
    → n < 2 ^ 63
    → getenv key ≡ itoa (pos n)
    → get_env_value_as_int getenv key default_value ≡ ok (pos n)
unfolding get_env_value_as_int
env_value_of_itoa getenv key default_value n h e =
    rw e (rw (itoa_nonempty n h) (rw (atoi-itoa (pos n) (h, omega arith)) refl))

module _ {S : Type 0} (p : Platform S) (getenv : String → String) {PrImpl TrImpl : Type 0}
    (new_pr_impl : Reconciler (World S) → ControllerOptions → PrImpl)
    (new_tr_impl : Reconciler (World S) → ControllerOptions → TrImpl)
    (add_pr_handler : PrImpl → Result (Unit {0}))
    (add_tr_handler : TrImpl → Result (Unit {0})) where
  -- The controllers that are returned where the handlers of events can be added.
  abbrev pub pr_impl : ℤ → PrImpl
  pr_impl workers =
      new_pr_impl (record { ttl_handler = pr_handler p; history_limiter = pr_limiter p })
        (record { concurrency = workers })

  abbrev pub tr_impl : ℤ → TrImpl
  tr_impl workers =
      new_tr_impl (record { ttl_handler = tr_handler p; history_limiter = tr_limiter p })
        (record { concurrency = workers })

  pipeline_started :
      (workers : ℤ)
      → get_env_value_as_int getenv env_ttl_concurrent_workers_pipeline_run
          default_ttl_concurrent_workers_pipeline_run
        ≡ ok workers
      → add_pr_handler (pr_impl workers) ≡ ok tt
      → new_pipeline_run_controller p getenv new_pr_impl add_pr_handler ≡ ok (pr_impl workers)
  unfolding new_pipeline_run_controller controller_of new_ttl_handler new_history_limiter
  pipeline_started workers e added = rw e (rw added refl)

  task_started :
      (workers : ℤ)
      → get_env_value_as_int getenv env_ttl_concurrent_workers_task_run
          default_ttl_concurrent_workers_task_run
        ≡ ok workers
      → add_tr_handler (tr_impl workers) ≡ ok tt
      → new_task_run_controller p getenv new_tr_impl add_tr_handler ≡ ok (tr_impl workers)
  unfolding new_task_run_controller controller_of new_ttl_handler new_history_limiter
  task_started workers e added = rw e (rw added refl)

  -- Where the environment variables of both controllers hold the decimal texts of natural numbers
  -- below 2^63 and the handlers of events can be added, each `NewController` returns what its
  -- `NewImpl` makes of a reconciler with the handlers over its own kind of run and of options with
  -- that number as the concurrency. What `NewImpl` does with the options is not said.
  pub controllers_read_workers :
      (m n : ℕ)
      → m < 2 ^ 63
      → n < 2 ^ 63
      → getenv env_ttl_concurrent_workers_pipeline_run ≡ itoa (pos m)
      → getenv env_ttl_concurrent_workers_task_run ≡ itoa (pos n)
      → add_pr_handler (pr_impl (pos m)) ≡ ok tt
      → add_tr_handler (tr_impl (pos n)) ≡ ok tt
      → (new_pipeline_run_controller p getenv new_pr_impl add_pr_handler ≡ ok (pr_impl (pos m)))
        × (new_task_run_controller p getenv new_tr_impl add_tr_handler ≡ ok (tr_impl (pos n)))
  controllers_read_workers m n below below' e f added added' = (
    pipeline_started (pos m) (env_value_of_itoa getenv _ _ m below e) added,
    task_started (pos n) (env_value_of_itoa getenv _ _ n below' f) added',
  )
