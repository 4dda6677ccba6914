-- ===== src/Runs/PipelineRuns.antt =====
-- `PrFuncs` of pkg/reconciler/pipelinerun/reconciler.go.
use tektoncd_pruner.Prelude.{
  String, ◌<>◌, Bool, true, false, not, ◌&&◌, ◌||◌, Option, none, some, List, [], ◌∷◌, ◌==◌,
  if◌then◌else◌, is_some, keep,
}
use mathlib.Core.List.{map}
use tektoncd_pruner.Go.Dict.{Dict, at, find, replace, entries}
use tektoncd_pruner.Go.Exec.{Exec, Result, ok, err, Error, errorf, wrap, handle}
use tektoncd_pruner.Go.Time.{Time, is_zero}
use tektoncd_pruner.Kube.Object.{
  Object, ObjectMeta, pipeline_run, task_run, other_object, Condition, meta, condition_succeeded,
  condition_unknown, reason_succeeded, reason_completed,
}
use tektoncd_pruner.Kube.Api.{Platform, Patch}
use tektoncd_pruner.Config.Spec.{kind_pipeline_run, label_pipeline_name, annotation_ttl}
use tektoncd_pruner.Config.Level.{get_pipeline_enforced_config_level}
use tektoncd_pruner.Config.Store.{
  get_pipeline_ttl_seconds_after_finished, get_pipeline_success_history_limit_count,
  get_pipeline_failed_history_limit_count,
}
use tektoncd_pruner.World.{World, call}
use tektoncd_pruner.History.Limit.{HistoryLimiterResourceFuncs}
use tektoncd_pruner.Ttl.Annotation.{TtlResourceFuncs}

-- `condition == nil || condition.Status == corev1.ConditionUnknown`, negated
abbrev pub is_decided : Option Condition → Bool
is_decided none = false
is_decided (some c) = not (c.status == condition_unknown)

-- the loop of `GetCompletionTime` over the conditions
unfoldable pub finish_condition : String → List Condition → Result Time
finish_condition name [] =
    err (errorf ("unable to find the status of the finished resource: " <> name))
finish_condition name (c ∷ cs) =
    let rest = finish_condition name cs in
    if c.type == condition_succeeded && not (c.status == condition_unknown)
    then (if is_zero c.last_transition_time
        then err (errorf ("unable to find the time when the resource '" <> (name <> "' finished")))
        else ok c.last_transition_time)
    else rest

-- the error of `GetCompletionTime` at another type, without the name of that type
abbrev pub wrong_type : ObjectMeta → Error
wrong_type m = errorf (
    "resource type error, this is not a PipelineRun resource. namespace:"
    <> (m.namespace <> (", name:" <> m.name)))

-- `GetCompletionTime`
unfoldable pub pr_completion_time : Object → Result Time
unfolding finish_condition
pr_completion_time (pipeline_run pr) = elim pr.status.completion_time [
  | some t ↦ ok t
  | none ↦
      finish_condition (pr.metadata.namespace <> ("/" <> pr.metadata.name)) pr.status.conditions
]
pr_completion_time (task_run tr) = err (wrong_type tr.metadata)
pr_completion_time (other_object m) = err (wrong_type m)

-- `Ignore`, of both kinds of run
unfoldable pub ignore_run : Object → Bool
unfolding find
ignore_run resource =
    not (is_some (meta resource).labels) && (at (meta resource).annotations annotation_ttl == "")

abbrev pub invalid_type : Object → Error
invalid_type o =
    errorf
      ("invalid type received. Namespace:" <> ((meta o).namespace <> (", Name:" <> (meta o).name)))

-- the loop of `ListByAnnotations`: a missing annotation reads as the empty text
unfoldable pub has_annotations : List (String × String) → Object → Bool
unfolding find
has_annotations [] o = true
has_annotations ((key, value) ∷ rest) o =
    let others = has_annotations rest o in
    if at (meta o).annotations key == value then others else false

abbrev pub has_success_reason : Option Condition → Bool
has_success_reason none = false
has_success_reason (some c) = c.reason == reason_succeeded || c.reason == reason_completed

module _ {S : Type 0} (p : Platform S) where
  -- `IsCompleted`
  unfoldable pub pr_is_completed : Object → Bool
  pr_is_completed (pipeline_run pr) =
      if not (is_some pr.status.start_time)
      then false
      else if is_some pr.status.completion_time
      then true
      else if p.is_pending pr
      then false
      else is_decided (p.get_condition pr.status condition_succeeded)
  pr_is_completed (task_run tr) = false
  pr_is_completed (other_object m) = false

  -- `IsSuccessful`
  unfoldable pub pr_is_successful : Object → Bool
  pr_is_successful (pipeline_run pr) =
      if p.is_pending pr
      then false
      else has_success_reason (p.get_condition pr.status condition_succeeded)
  pr_is_successful (task_run tr) = false
  pr_is_successful (other_object m) = false

  -- `IsFailed`
  unfoldable pub pr_is_failed : Object → Bool
  unfolding pr_is_successful
  pr_is_failed (pipeline_run pr) =
      if p.is_pending pr then false else not (pr_is_successful (pipeline_run pr))
  pr_is_failed (task_run tr) = false
  pr_is_failed (other_object m) = false

  -- `List`
  unfoldable pub pr_list : String → String → Exec (World S) (List Object)
  unfolding call
  pr_list namespace label w =
      handle (λ e w. (err e, w)) (λ prs w. (ok (map pipeline_run prs), w))
        (call (p.pipeline_runs.list namespace label) w)

  -- `ListByLabels`
  unfoldable pub pr_list_by_labels : String → Dict String → Exec (World S) (List Object)
  unfolding call
  pr_list_by_labels namespace labels w =
      handle (λ e w. (err e, w)) (λ prs w. (ok (map pipeline_run prs), w))
        (call (p.pipeline_runs.list namespace (p.format_label_selector labels)) w)

  -- `ListByAnnotations`
  unfoldable pub pr_list_by_annotations : String → Dict String → Exec (World S) (List Object)
  unfolding pr_list has_annotations
  pr_list_by_annotations namespace annotations w =
      handle (λ e w. (err e, w))
        (λ prs w. (ok (keep (has_annotations (entries annotations)) prs), w))
        (pr_list namespace "" w)

  -- `ListByNamespaces`: a namespace whose listing fails is left out
  unfoldable pub pr_list_by_namespaces :
      List String → List (String × List Object) → Exec (World S) (Dict (List Object))
  unfolding pr_list replace
  pr_list_by_namespaces [] results w = (ok (some results), w)
  pr_list_by_namespaces (ns ∷ namespaces) results w =
      handle (λ e. pr_list_by_namespaces namespaces results)
        (λ prs. pr_list_by_namespaces namespaces (replace ns prs results)) (pr_list ns "" w)

  -- `Get`
  unfoldable pub pr_get : String → String → Exec (World S) Object
  unfolding call
  pr_get namespace name w =
      handle (λ e w. (err e, w)) (λ pr w. (ok (pipeline_run pr), w))
        (call (p.pipeline_runs.get namespace name) w)

  -- `Delete`
  unfoldable pub pr_delete : String → String → Exec (World S) (Unit {0})
  unfolding call
  pr_delete namespace name = call (p.pipeline_runs.delete namespace name)

  -- `Update`
  unfoldable pub pr_update : Object → Exec (World S) (Unit {0})
  unfolding call
  pr_update (pipeline_run pr) w = call (p.pipeline_runs.update pr.metadata.namespace pr) w
  pr_update (task_run tr) w = (err (invalid_type (task_run tr)), w)
  pr_update (other_object m) w = (err (invalid_type (other_object m)), w)

  -- `Patch`
  unfoldable pub pr_patch : String → String → Patch → Exec (World S) (Unit {0})
  unfolding call
  pr_patch namespace name patch w =
      handle
        (λ e w. (err (wrap ("failed to patch PipelineRun " <> (namespace <> ("/" <> name))) e), w))
        (λ _ w. (ok tt, w)) (call (p.pipeline_runs.patch namespace name patch) w)

  -- `PrFuncs` as the interface of the history limiter
  abbrev pub pr_history_funcs : HistoryLimiterResourceFuncs (World S)
  pr_history_funcs = record {
    type = kind_pipeline_run;
    get = pr_get;
    update = pr_update;
    patch = pr_patch;
    delete = pr_delete;
    list = pr_list;
    get_failed_history_limit_count =
        λ ns name selector w. get_pipeline_failed_history_limit_count w.store ns name selector;
    get_success_history_limit_count =
        λ ns name selector w. get_pipeline_success_history_limit_count w.store ns name selector;
    is_successful = pr_is_successful;
    is_failed = pr_is_failed;
    is_completed = pr_is_completed;
    get_default_label_key = label_pipeline_name;
    get_enforced_config_level = λ ns name selector w.
        get_pipeline_enforced_config_level w.store.global_config ns name selector;
  }

  -- `PrFuncs` as the interface of the TTL handler
  abbrev pub pr_ttl_funcs : TtlResourceFuncs (World S)
  pr_ttl_funcs = record {
    type = kind_pipeline_run;
    get = pr_get;
    delete = pr_delete;
    patch = pr_patch;
    update = pr_update;
    is_completed = pr_is_completed;
    get_completion_time = pr_completion_time;
    ignore = ignore_run;
    get_ttl_seconds_after_finished =
        λ ns name selector w. get_pipeline_ttl_seconds_after_finished w.store ns name selector;
    get_default_label_key = label_pipeline_name;
    get_enforced_config_level = λ ns name selector w.
        get_pipeline_enforced_config_level w.store.global_config ns name selector;
  }
