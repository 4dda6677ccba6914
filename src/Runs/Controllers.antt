-- ===== src/Runs/Controllers.antt =====
-- `NewController` of pipelinerun/controller.go and taskrun/controller.go, apart from the injection
-- of clients and informers. `logger.Fatal` ends the process; it is an error here.
use tektoncd_pruner.Prelude.{String, ℤ, some}
use tektoncd_pruner.Go.Exec.{Result, ok}
use tektoncd_pruner.Kube.Api.{Platform}
use tektoncd_pruner.Config.Workers.{
  get_env_value_as_int, env_ttl_concurrent_workers_pipeline_run,
  env_ttl_concurrent_workers_task_run, default_ttl_concurrent_workers_pipeline_run,
  default_ttl_concurrent_workers_task_run,
}
use tektoncd_pruner.World.{World, read_clock}
use tektoncd_pruner.History.Limit.{HistoryLimiter, new_history_limiter}
use tektoncd_pruner.Ttl.Annotation.{TtlHandler, new_ttl_handler}
use tektoncd_pruner.Ttl.Expiry.{then_ok}
use tektoncd_pruner.Runs.PipelineRuns.{pr_history_funcs, pr_ttl_funcs}
use tektoncd_pruner.Runs.TaskRuns.{tr_history_funcs, tr_ttl_funcs}

-- `Reconciler`, without the client that it never uses
pub record Reconciler (W : Type 0) : Type 0 where
  pub ttl_handler : TtlHandler W
  pub history_limiter : HistoryLimiter W

-- The fields of `controller.Options` that the source sets.
pub record ControllerOptions : Type 0 where
  pub concurrency : ℤ

-- The vendored `NewImpl` of a kind of run is a parameter, and what it makes of the options is its own;
-- so is `AddEventHandler` of the informer.
module _ {S : Type 0} (p : Platform S) (getenv : String → String) {Impl : Type 0}
    (new_impl : Reconciler (World S) → ControllerOptions → Impl)
    (add_event_handler : Impl → Result (Unit {0})) where
  -- the body that the two functions share
  unfoldable pub controller_of :
      Result (TtlHandler (World S)) → Result (HistoryLimiter (World S)) → String → ℤ → Result Impl
  unfolding get_env_value_as_int
  controller_of ttl_handler history_limiter key default_value = then_ok ttl_handler (λ th.
      then_ok history_limiter (λ hl.
        then_ok (get_env_value_as_int getenv key default_value) (λ concurrent_workers.
          let r : Reconciler (World S) = record { ttl_handler = th; history_limiter = hl } in
          let impl = new_impl r (record { concurrency = concurrent_workers }) in
          then_ok (add_event_handler impl) (λ _. ok impl))))

  -- `NewController` of pipelinerun/controller.go
  unfoldable pub new_pipeline_run_controller : Result Impl
  unfolding controller_of new_ttl_handler new_history_limiter
  new_pipeline_run_controller =
      controller_of (new_ttl_handler p (some (read_clock p)) (some (pr_ttl_funcs p)))
        (new_history_limiter (some (pr_history_funcs p))) env_ttl_concurrent_workers_pipeline_run
        default_ttl_concurrent_workers_pipeline_run

  -- `NewController` of taskrun/controller.go
  unfoldable pub new_task_run_controller : Result Impl
  unfolding controller_of new_ttl_handler new_history_limiter
  new_task_run_controller =
      controller_of (new_ttl_handler p (some (read_clock p)) (some (tr_ttl_funcs p)))
        (new_history_limiter (some (tr_history_funcs p))) env_ttl_concurrent_workers_task_run
        default_ttl_concurrent_workers_task_run
