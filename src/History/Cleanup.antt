-- ===== src/History/Cleanup.antt =====
-- `doResourceCleanup` with its calls of the client.
use tektoncd_pruner.Prelude.{
  String, ℕ, pos, Bool, ◌&&◌, Option, none, some, List, [], ◌∷◌, ◌==◌, if◌then◌else◌,
}
use tektoncd_pruner.Go.Exec.{Exec, Result, ok, err, continue}
use tektoncd_pruner.Go.Time.{Duration, is_zero, sub}
use tektoncd_pruner.Kube.Object.{Object, ObjectMeta, meta}
use tektoncd_pruner.Kube.Api.{Platform}
use tektoncd_pruner.Config.Spec.{
  EnforcedConfigLevel, SelectorSpec, kind_task_run, annotation_successful_limit,
  annotation_failed_limit,
}
use tektoncd_pruner.Config.Select.{Found}
use tektoncd_pruner.Config.Helper.{
  get_resource_name_label_key, get_resource_name, get_resource_selectors,
}
use tektoncd_pruner.Metrics.Names.{
  operation_history, resource_type_pipeline_run, resource_type_task_run,
}
use tektoncd_pruner.Metrics.{record_resource_deleted, record_resource_error, classify_error}
use tektoncd_pruner.World.{World, read_clock, measure}
use tektoncd_pruner.History.Limit.{
  HistoryLimiter, choose_limit, effective_limit, list_selector, select_for_deletion,
}

-- the label of the metrics for the kind of run
abbrev pub metric_type : String → String
metric_type type =
    if type == kind_task_run then resource_type_task_run else resource_type_pipeline_run

module _ {S : Type 0} (p : Platform S) where
  -- the age for the metrics, with no reading of the clock for a run without a creation time
  unfoldable pub resource_age : ObjectMeta → World S → Duration × World S
  unfolding sub read_clock
  resource_age m w =
      let (now, w') = read_clock p w in
      if is_zero m.creation_timestamp then (pos 0, w) else (sub now m.creation_timestamp, w')

  -- what follows the call of `Delete` for one run; `rest` deletes the others
  unfoldable pub after_delete :
      String
      → String
      → Duration
      → Exec (World S) (Unit {0})
      → Result (Unit {0}) × World S
      → Result (Unit {0}) × World S
  unfolding record_resource_deleted record_resource_error classify_error
  after_delete type namespace age rest (ok _, w) =
      rest (measure (record_resource_deleted (metric_type type) namespace operation_history age) w)
  after_delete type namespace age rest (err e, w) =
      let recorded =
        measure
          (record_resource_error (metric_type type) namespace (classify_error p.errors (some e))
            "history_deletion_failed")
          w in
      if p.errors.is_not_found e then rest w else (err e, recorded)

  module _ (hl : HistoryLimiter (World S)) where
    open hl use {resource_fn}

    -- the loop over the selection
    unfoldable pub delete_selected : List Object → Exec (World S) (Unit {0})
    unfolding resource_age after_delete
    delete_selected [] w = (ok tt, w)
    delete_selected (res ∷ rest) w =
        let m = meta res in
        let (age, w') = resource_age m w in
        after_delete resource_fn.type m.namespace age (delete_selected rest)
          (resource_fn.delete m.namespace m.name w')

    -- the listing, the selection and the deletions, under a limit that is set
    unfoldable pub prune_to :
        String → String → (Object → Bool) → Option ℕ → Exec (World S) (Unit {0})
    unfolding delete_selected select_for_deletion
    prune_to namespace selector passes none w = (ok tt, w)
    prune_to namespace selector passes (some limit) w =
        continue (λ resources. delete_selected (select_for_deletion passes limit resources))
          (resource_fn.list namespace selector w)

    abbrev pub limit_found :
        Object → EnforcedConfigLevel → (Object → Bool) → Result Found → Exec (World S) (Unit {0})
    limit_found resource level passes (err e) w = (err e, w)
    limit_found resource level passes (ok (limit, identified_by)) w =
        let m = meta resource in
        let label_key = get_resource_name_label_key m resource_fn.get_default_label_key in
        prune_to m.namespace
          (list_selector level identified_by label_key (get_resource_name m label_key) m) passes
          (effective_limit limit) w

    -- `doResourceCleanup`
    unfoldable pub do_resource_cleanup :
        Object
        → String
        → (String → String → SelectorSpec → World S → Found)
        → (Object → Bool)
        → Exec (World S) (Unit {0})
    unfolding prune_to choose_limit list_selector get_resource_name_label_key get_resource_name
        get_resource_selectors
    do_resource_cleanup resource limit_annotation get_limit passes w =
        let m = meta resource in
        let label_key = get_resource_name_label_key m resource_fn.get_default_label_key in
        let name = get_resource_name m label_key in
        let selectors = get_resource_selectors m in
        let level = resource_fn.get_enforced_config_level m.namespace name selectors w in
        let configured = get_limit m.namespace name selectors w in
        limit_found resource level passes
          (choose_limit level m.annotations limit_annotation configured) w

    -- `isFailedResource` and `isSuccessfulResource`
    unfoldable pub is_failed_resource : Object → Bool
    is_failed_resource resource =
        resource_fn.is_completed resource && resource_fn.is_failed resource

    unfoldable pub is_successful_resource : Object → Bool
    is_successful_resource resource =
        resource_fn.is_completed resource && resource_fn.is_successful resource

    -- `DoSuccessfulResourceCleanup`
    unfoldable pub do_successful_resource_cleanup : Object → Exec (World S) (Unit {0})
    unfolding do_resource_cleanup is_successful_resource
    do_successful_resource_cleanup resource =
        do_resource_cleanup resource annotation_successful_limit
          resource_fn.get_success_history_limit_count is_successful_resource

    -- `DoFailedResourceCleanup`
    unfoldable pub do_failed_resource_cleanup : Object → Exec (World S) (Unit {0})
    unfolding do_resource_cleanup is_failed_resource
    do_failed_resource_cleanup resource =
        do_resource_cleanup resource annotation_failed_limit
          resource_fn.get_failed_history_limit_count is_failed_resource
