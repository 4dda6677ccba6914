-- ===== src/Kube/Api.antt =====
-- The API client, the clock, time formats and vendored helpers, as a record of functions over the
-- state `S` of everything outside the process.
use tektoncd_pruner.Prelude.{String, Bool, Option, List}
use tektoncd_pruner.Go.Dict.{Dict}
use tektoncd_pruner.Go.Exec.{Exec, Result, Error}
use tektoncd_pruner.Go.Time.{Time}
use tektoncd_pruner.Kube.Object.{PipelineRun, TaskRun, RunStatus, Condition}

-- A JSON merge patch `{"metadata": {"annotations": …}}`, and the JSON patch that removes one
-- annotation.
pub data Patch : Type 0 where
  merge_annotations : Dict String → Patch
  remove_annotation : String → Patch

-- `TektonV1().PipelineRuns(namespace)` and `TaskRuns(namespace)`. The first text is the namespace.
pub record RunClient (S Run : Type 0) : Type 0 where
  pub get : String → String → Exec S Run
  pub list : String → String → Exec S (List Run)
  pub delete : String → String → Exec S (Unit {0})
  pub update : String → Run → Exec S (Unit {0})
  pub patch : String → String → Patch → Exec S (Unit {0})

-- The predicates of `k8s.io/apimachinery/pkg/api/errors`, and `controller.IsRequeueKey`.
pub record ErrorKinds : Type 0 where
  pub is_not_found : Error → Bool
  pub is_internal_error : Error → Bool
  pub is_server_timeout : Error → Bool
  pub is_service_unavailable : Error → Bool
  pub is_timeout : Error → Bool
  pub is_invalid : Error → Bool
  pub is_bad_request : Error → Bool
  pub is_forbidden : Error → Bool
  pub is_unauthorized : Error → Bool
  pub is_requeue_key : Error → Bool

pub record Platform (S : Type 0) : Type 0 where
  pub pipeline_runs : RunClient S PipelineRun
  pub task_runs : RunClient S TaskRun
  -- `time.Now()`, also behind `clock.Now()` and `time.Since`
  pub now : S → Time × S
  pub format_rfc3339 : Time → String
  pub parse_rfc3339 : String → Result Time
  pub errors : ErrorKinds
  -- `pr.IsPending()`, `status.GetCondition(t)`, `tr.HasPipelineRunOwnerReference()`
  pub is_pending : PipelineRun → Bool
  pub get_condition : RunStatus → String → Option Condition
  pub has_pipeline_run_owner_reference : TaskRun → Bool
  -- `metav1.FormatLabelSelector(&metav1.LabelSelector{MatchLabels: labels})`
  pub format_label_selector : Dict String → String
