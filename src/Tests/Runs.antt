-- ===== src/Tests/Runs.antt =====
-- Concrete inputs for the theorems on the two reconcilers.
use tektoncd_pruner.Prelude.{
  String, pos, true, false, Option, none, some, List, [], ◌∷◌, ◌≡◌, refl, arith, ◌==◌,
  if◌then◌else◌,
}
use tektoncd_pruner.Go.Dict.{find}
use tektoncd_pruner.Go.Exec.{ok}
use tektoncd_pruner.Go.Time.{is_zero}
use tektoncd_pruner.Kube.Object.{
  Object, ObjectMeta, RunStatus, Condition, PipelineRun, TaskRun, pipeline_run, task_run,
  condition_succeeded,
}
use tektoncd_pruner.Kube.Api.{Platform}
use tektoncd_pruner.Config.Spec.{kind_pipeline_run}
use tektoncd_pruner.World.{World}
use tektoncd_pruner.History.Cleanup.{is_successful_resource, is_failed_resource}
use tektoncd_pruner.Ttl.Annotation.{TtlHandler}
use tektoncd_pruner.Runs.PipelineRuns.{pr_is_completed}
use tektoncd_pruner.Runs.TaskRuns.{tr_is_completed, tr_ttl_funcs, filter_task_run}
use tektoncd_pruner.Runs.Reconcile.{reconcile_task_run}
use tektoncd_pruner.Runs.States.{pr_limiter, tr_limiter, pr_handler, tr_handler}
use tektoncd_pruner.Runs.Counted.{
  counted_as, counts, outcome_by_reason, is_done, pipeline_run_is_counted_once,
}
use tektoncd_pruner.Runs.Order.{has_parent, owned_task_run_is_left_alone}
use tektoncd_pruner.Config.Workers.{
  env_ttl_concurrent_workers_pipeline_run, env_ttl_concurrent_workers_task_run,
}
use tektoncd_pruner.Go.Decimal.{itoa}
use tektoncd_pruner.Runs.Controllers.{
  Reconciler, ControllerOptions, new_pipeline_run_controller, new_task_run_controller,
}
use tektoncd_pruner.Runs.Started.{controllers_read_workers}
use tektoncd_pruner.Tests.Fixture.{platform, meta_of, noon}
use tektoncd_pruner.Tests.Store.{single_limiter, one_run}

abbrev succeeded : Condition
succeeded = record {
  type = condition_succeeded;
  status = "True";
  reason = "Succeeded";
  last_transition_time = pos 7;
}

-- Started, with no time of completion, and decided by its condition.
abbrev pub decided : RunStatus
decided = record { start_time = some (pos 5); completion_time = none; conditions = succeeded ∷ [] }

abbrev build : PipelineRun
build = record { metadata = meta_of "build" 1; spec_status = ""; status = decided }

abbrev unit_test : TaskRun
unit_test = record { metadata = meta_of "unit" 1; status = decided }

build_completed : pr_is_completed {S = List Object} platform (pipeline_run build) ≡ true
unfolding pr_is_completed
build_completed = refl

unit_completed : tr_is_completed {S = List Object} platform (task_run unit_test) ≡ true
unfolding tr_is_completed
unit_completed = refl

unit_dated : (c : Condition) → some succeeded ≡ some c → is_zero c.last_transition_time ≡ false
unit_dated c e = ground (arith, e)

pipeline_run_is_counted_once_example :
    (is_successful_resource {S = List Object} platform (pr_limiter platform) (pipeline_run build)
      ≡ true)
    × (is_failed_resource {S = List Object} platform (pr_limiter platform) (pipeline_run build)
        ≡ false)
unfolding counted_as counts outcome_by_reason is_done
pipeline_run_is_counted_once_example = pipeline_run_is_counted_once {S = List Object} platform build

-- A TaskRun that a PipelineRun owns, second to another owner, with no label.
abbrev owned_test : TaskRun
owned_test = record unit_test {
  metadata = record (meta_of "unit" 1) {
    owner_references =
        record { kind = "Job"; name = "j" }
        ∷ record { kind = kind_pipeline_run; name = "build" }
        ∷ [];
  };
}

owned_parent : has_parent owned_test.metadata ≡ true
owned_parent = unfold find in refl

abbrev handler : TtlHandler (World (Option ObjectMeta))
handler = record { clock = λ w. (noon, w); resource_fn = tr_ttl_funcs platform }

owned_task_run_is_left_alone_example :
    (filter_task_run owned_test.metadata ≡ none)
    × (reconcile_task_run platform single_limiter handler owned_test one_run ≡ (ok tt, one_run))
owned_task_run_is_left_alone_example =
    owned_task_run_is_left_alone platform single_limiter handler owned_test one_run owned_parent

-- Three workers for PipelineRuns and twelve for TaskRuns.
abbrev environment : String → String
environment key = if key == env_ttl_concurrent_workers_pipeline_run then "3" else "12"

three_workers : environment env_ttl_concurrent_workers_pipeline_run ≡ itoa (pos 3)
unfolding itoa
three_workers = refl

twelve_workers : environment env_ttl_concurrent_workers_task_run ≡ itoa (pos 12)
unfolding itoa
twelve_workers = refl

abbrev idle_cluster : Platform (List Object)
idle_cluster = platform

-- A `NewImpl` that keeps the reconciler and, as the generated one does, drops the concurrency.
abbrev drops_options :
    Reconciler (World (List Object)) → ControllerOptions → Reconciler (World (List Object))
drops_options r options = r

abbrev keeps_options :
    Reconciler (World (List Object))
    → ControllerOptions
    → Reconciler (World (List Object)) × ControllerOptions
keeps_options r options = (r, options)

controllers_read_workers_example :
    (new_pipeline_run_controller idle_cluster environment drops_options (λ impl. ok tt)
      ≡ ok (record {
        ttl_handler = pr_handler idle_cluster;
        history_limiter = pr_limiter idle_cluster;
      }))
    × (new_task_run_controller idle_cluster environment keeps_options (λ impl. ok tt)
        ≡ ok (
          record {
            ttl_handler = tr_handler idle_cluster;
            history_limiter = tr_limiter idle_cluster;
          },
          record { concurrency = pos 12 },
        ))
controllers_read_workers_example =
    controllers_read_workers idle_cluster environment drops_options keeps_options (λ impl. ok tt)
      (λ impl. ok tt) 3 12 (omega arith) (omega arith) three_workers twelve_workers refl refl
