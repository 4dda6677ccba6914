-- ===== src/Runs/TaskRuns.antt =====
-- `TrFuncs` of pkg/reconciler/taskrun/reconciler.go, and the tests of taskrun/controller.go.
use tektoncd_pruner.Prelude.{
  String, ◌<>◌, Bool, true, false, not, ◌&&◌, Option, none, some, List, [], ◌∷◌, ◌==◌,
  if◌then◌else◌, is_some, keep, ltb, length,
}
use mathlib.Core.List.{map}
use tektoncd_pruner.Go.Dict.{Dict, at, find, replace, entries}
use tektoncd_pruner.Go.Exec.{Exec, Result, ok, err, Error, errorf, wrap, handle}
use tektoncd_pruner.Go.Time.{Time, is_zero}
use tektoncd_pruner.Kube.Object.{
  Object, ObjectMeta, OwnerReference, pipeline_run, task_run, other_object, Condition,
  condition_succeeded, condition_unknown, reason_succeeded,
}
use tektoncd_pruner.Kube.Api.{Platform, Patch}
use tektoncd_pruner.Config.Spec.{
  kind_pipeline_run, kind_task_run, label_task_name, label_pipeline_run_name,
}
use tektoncd_pruner.Config.Level.{get_task_enforced_config_level}
use tektoncd_pruner.Config.Store.{
  get_task_ttl_seconds_after_finished, get_task_success_history_limit_count,
  get_task_failed_history_limit_count,
}
use tektoncd_pruner.World.{World, call}
use tektoncd_pruner.History.Limit.{HistoryLimiterResourceFuncs}
use tektoncd_pruner.Ttl.Annotation.{TtlResourceFuncs}
use tektoncd_pruner.Runs.PipelineRuns.{is_decided, ignore_run, invalid_type, has_annotations}

-- the error of `GetCompletionTime` at another type, without the name of that type
abbrev pub wrong_type : ObjectMeta → Error
wrong_type m = errorf (
    "resource type error, this is not a TaskRun resource. namespace:"
    <> (m.namespace <> (", name:" <> m.name)))

-- the time of the condition that `GetCompletionTime` falls back on
unfoldable pub condition_time : String → Option Condition → Result Time
condition_time name none =
    err (errorf ("unable to find the status of the finished resource: " <> name))
condition_time name (some c) =
    if c.status == condition_unknown
    then err (errorf ("unable to find the status of the finished resource: " <> name))
    else if is_zero c.last_transition_time
    then err (errorf ("unable to find the time when the resource '" <> (name <> "' finished")))
    else ok c.last_transition_time

-- the label of the parent PipelineRun, or an owner of that kind
unfoldable pub owned_by_pipeline_run : List OwnerReference → Bool
owned_by_pipeline_run [] = false
owned_by_pipeline_run (r ∷ rs) =
    let rest = owned_by_pipeline_run rs in if r.kind == kind_pipeline_run then true else rest

-- `isStandaloneTaskRun` of controller.go
unfoldable pub is_standalone_task_run : ObjectMeta → Bool
unfolding find owned_by_pipeline_run
is_standalone_task_run m =
    if is_some m.labels && not (at m.labels label_pipeline_run_name == "")
    then false
    else if ltb 0 (length m.owner_references)
    then not (owned_by_pipeline_run m.owner_references)
    else true

-- `filterTaskRun` of controller.go: the key that it enqueues, by namespace and name
unfoldable pub filter_task_run : ObjectMeta → Option (String × String)
unfolding is_standalone_task_run
filter_task_run m = if not (is_standalone_task_run m) then none else some (m.namespace, m.name)

abbrev pub is_success_reason : Option Condition → Bool
is_success_reason none = false
is_success_reason (some c) = c.reason == reason_succeeded

module _ {S : Type 0} (p : Platform S) where
  -- `GetCompletionTime`
  unfoldable pub tr_completion_time : Object → Result Time
  unfolding condition_time
  tr_completion_time (task_run tr) = elim tr.status.completion_time [
    | some t ↦ ok t
    | none ↦
        condition_time (tr.metadata.namespace <> ("/" <> tr.metadata.name))
          (p.get_condition tr.status condition_succeeded)
  ]
  tr_completion_time (pipeline_run pr) = err (wrong_type pr.metadata)
  tr_completion_time (other_object m) = err (wrong_type m)

  -- `IsCompleted`
  unfoldable pub tr_is_completed : Object → Bool
  tr_is_completed (task_run tr) =
      if not (is_some tr.status.start_time)
      then false
      else if is_some tr.status.completion_time
      then true
      else is_decided (p.get_condition tr.status condition_succeeded)
  tr_is_completed (pipeline_run pr) = false
  tr_is_completed (other_object m) = false

  -- `IsSuccessful`
  unfoldable pub tr_is_successful : Object → Bool
  tr_is_successful (task_run tr) = is_success_reason (p.get_condition tr.status condition_succeeded)
  tr_is_successful (pipeline_run pr) = false
  tr_is_successful (other_object m) = false

  -- `IsFailed`
  unfoldable pub tr_is_failed : Object → Bool
  unfolding tr_is_successful
  tr_is_failed (task_run tr) = not (tr_is_successful (task_run tr))
  tr_is_failed (pipeline_run pr) = false
  tr_is_failed (other_object m) = false

  -- `List`
  unfoldable pub tr_list : String → String → Exec (World S) (List Object)
  unfolding call
  tr_list namespace label w =
      handle (λ e w. (err e, w)) (λ trs w. (ok (map task_run trs), w))
        (call (p.task_runs.list namespace label) w)

  -- `ListByLabels`
  unfoldable pub tr_list_by_labels : String → Dict String → Exec (World S) (List Object)
  unfolding call
  tr_list_by_labels namespace labels w =
      handle (λ e w. (err e, w)) (λ trs w. (ok (map task_run trs), w))
        (call (p.task_runs.list namespace (p.format_label_selector labels)) w)

  -- `ListByAnnotations`
  unfoldable pub tr_list_by_annotations : String → Dict String → Exec (World S) (List Object)
  unfolding tr_list has_annotations
  tr_list_by_annotations namespace annotations w =
      handle (λ e w. (err e, w))
        (λ trs w. (ok (keep (has_annotations (entries annotations)) trs), w))
        (tr_list namespace "" w)

  -- `ListByNamespaces`: a namespace whose listing fails is left out
  unfoldable pub tr_list_by_namespaces :
      List String → List (String × List Object) → Exec (World S) (Dict (List Object))
  unfolding tr_list replace
  tr_list_by_namespaces [] results w = (ok (some results), w)
  tr_list_by_namespaces (ns ∷ namespaces) results w =
      handle (λ e. tr_list_by_namespaces namespaces results)
        (λ trs. tr_list_by_namespaces namespaces (replace ns trs results)) (tr_list ns "" w)

  -- `Get`
  unfoldable pub tr_get : String → String → Exec (World S) Object
  unfolding call
  tr_get namespace name w =
      handle (λ e w. (err e, w)) (λ tr w. (ok (task_run tr), w))
        (call (p.task_runs.get namespace name) w)

  -- `Delete`
  unfoldable pub tr_delete : String → String → Exec (World S) (Unit {0})
  unfolding call
  tr_delete namespace name = call (p.task_runs.delete namespace name)

  -- `Update`
  unfoldable pub tr_update : Object → Exec (World S) (Unit {0})
  unfolding call
  tr_update (task_run tr) w = call (p.task_runs.update tr.metadata.namespace tr) w
  tr_update (pipeline_run pr) w = (err (invalid_type (pipeline_run pr)), w)
  tr_update (other_object m) w = (err (invalid_type (other_object m)), w)

  -- `Patch`
  unfoldable pub tr_patch : String → String → Patch → Exec (World S) (Unit {0})
  unfolding call
  tr_patch namespace name patch w =
      handle (λ e w. (err (wrap ("failed to patch TaskRun " <> (namespace <> ("/" <> name))) e), w))
        (λ _ w. (ok tt, w)) (call (p.task_runs.patch namespace name patch) w)

  -- `TrFuncs` as the interface of the history limiter
  abbrev pub tr_history_funcs : HistoryLimiterResourceFuncs (World S)
  tr_history_funcs = record {
    type = kind_task_run;
    get = tr_get;
    update = tr_update;
    patch = tr_patch;
    delete = tr_delete;
    list = tr_list;
    get_failed_history_limit_count =
        λ ns name selector w. get_task_failed_history_limit_count w.store ns name selector;
    get_success_history_limit_count =
        λ ns name selector w. get_task_success_history_limit_count w.store ns name selector;
    is_successful = tr_is_successful;
    is_failed = tr_is_failed;
    is_completed = tr_is_completed;
    get_default_label_key = label_task_name;
    get_enforced_config_level =
        λ ns name selector w. get_task_enforced_config_level w.store.global_config ns name selector;
  }

  -- `TrFuncs` as the interface of the TTL handler
  abbrev pub tr_ttl_funcs : TtlResourceFuncs (World S)
  tr_ttl_funcs = record {
    type = kind_task_run;
    get = tr_get;
    delete = tr_delete;
    patch = tr_patch;
    update = tr_update;
    is_completed = tr_is_completed;
    get_completion_time = tr_completion_time;
    ignore = ignore_run;
    get_ttl_seconds_after_finished =
        λ ns name selector w. get_task_ttl_seconds_after_finished w.store ns name selector;
    get_default_label_key = label_task_name;
    get_enforced_config_level =
        λ ns name selector w. get_task_enforced_config_level w.store.global_config ns name selector;
  }
