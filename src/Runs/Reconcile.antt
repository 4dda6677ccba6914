-- ===== src/Runs/Reconcile.antt =====
-- `ReconcileKind` of both reconcilers: the history limiter, then the TTL handler, with the metrics.
use tektoncd_pruner.Prelude.{String, some, not, if◌then◌else◌}
use tektoncd_pruner.Go.Exec.{Exec, Result, ok, err, Error}
use tektoncd_pruner.Go.Time.{Time}
use tektoncd_pruner.Kube.Object.{
  Object, ObjectMeta, PipelineRun, TaskRun, pipeline_run, task_run, meta,
}
use tektoncd_pruner.Kube.Api.{Platform}
use tektoncd_pruner.Metrics.Names.{
  status_success, status_error, operation_ttl, operation_history, resource_type_pipeline_run,
  resource_type_task_run,
}
use tektoncd_pruner.Metrics.{
  Recorder, Timer, Labels, new_timer, resource_attributes, operation_attributes,
  record_reconciliation_duration, record_history_processing_duration,
  record_ttl_processing_duration, record_reconciliation_event, record_resource_processed,
  record_resource_error, classify_error,
}
use tektoncd_pruner.World.{World, read_clock, measure}
use tektoncd_pruner.History.Limit.{HistoryLimiter}
use tektoncd_pruner.History.Event.{process_event}
use tektoncd_pruner.Ttl.Annotation.{TtlHandler}
use tektoncd_pruner.Ttl.Event.{process_ttl_event}
use tektoncd_pruner.Runs.TaskRuns.{is_standalone_task_run}

module _ {S : Type 0} (p : Platform S) where
  unfoldable pub start_timer : Labels → World S → Timer × World S
  unfolding read_clock
  start_timer labels w = let (now, w') = read_clock p w in (new_timer labels now, w')

  unfoldable pub stop_timer : (Timer → Time → Recorder → Recorder) → Timer → World S → World S
  unfolding read_clock
  stop_timer record_duration t w =
      let (now, w') = read_clock p w in measure (record_duration t now) w'

  -- one handler between the start and the stop of its timer
  unfoldable pub timed :
      (Timer → Time → Recorder → Recorder)
      → Labels
      → Exec (World S) (Unit {0})
      → Exec (World S) (Unit {0})
  unfolding start_timer stop_timer
  timed record_duration labels handler w =
      let (t, w') = start_timer labels w in
      let (r, w'') = handler w' in (r, stop_timer record_duration t w'')

  -- the two deferred functions, in the order in which they run
  unfoldable pub finish : String → ObjectMeta → Timer → String → World S → World S
  unfolding stop_timer record_reconciliation_event record_resource_processed
  finish type m t status w = stop_timer record_reconciliation_duration t (
      measure (record_resource_processed m.uid type m.namespace status)
        (measure (record_reconciliation_event type m.namespace status) w))

  unfoldable pub failed : String → ObjectMeta → String → Error → World S → World S
  unfolding record_resource_error classify_error
  failed type m reason e =
      measure (record_resource_error type m.namespace (classify_error p.errors (some e)) reason)

  -- what follows the TTL handler: a requeue request is returned, but is no failure
  unfoldable pub after_ttl :
      String → ObjectMeta → Timer → Result (Unit {0}) × World S → Result (Unit {0}) × World S
  unfolding finish failed
  after_ttl type m t (ok _, w) = (ok tt, finish type m t status_success w)
  after_ttl type m t (err e, w) =
      if not (p.errors.is_requeue_key e)
      then (err e, finish type m t status_error (failed type m "ttl_processing_failed" e w))
      else (err e, finish type m t status_success w)

  -- what follows the history limiter: an error ends the reconciliation before the TTL handler
  unfoldable pub after_history :
      String
      → ObjectMeta
      → Timer
      → Exec (World S) (Unit {0})
      → Result (Unit {0}) × World S
      → Result (Unit {0}) × World S
  unfolding after_ttl finish failed
  after_history type m t ttl (ok _, w) = after_ttl type m t (ttl w)
  after_history type m t ttl (err e, w) =
      (err e, finish type m t status_error (failed type m "history_processing_failed" e w))

  module _ (hl : HistoryLimiter (World S)) (th : TtlHandler (World S)) where
    -- the body that the two reconcilers share, for the metric type of the run
    unfoldable pub reconcile_run : String → Object → Exec (World S) (Unit {0})
    unfolding start_timer timed after_history process_event process_ttl_event resource_attributes
        operation_attributes record_history_processing_duration record_ttl_processing_duration
    reconcile_run type resource w =
        let m = meta resource in
        let (t, w') = start_timer (resource_attributes type m.namespace) w in
        after_history type m t
          (timed record_ttl_processing_duration
            (operation_attributes type m.namespace operation_ttl) (process_ttl_event p th resource))
          (timed record_history_processing_duration
            (operation_attributes type m.namespace operation_history) (process_event p hl resource)
            w')

    -- `ReconcileKind` of pipelinerun/reconciler.go
    unfoldable pub reconcile_pipeline_run : PipelineRun → Exec (World S) (Unit {0})
    unfolding reconcile_run
    reconcile_pipeline_run pr = reconcile_run resource_type_pipeline_run (pipeline_run pr)

    -- `ReconcileKind` of taskrun/reconciler.go
    unfoldable pub reconcile_task_run : TaskRun → Exec (World S) (Unit {0})
    unfolding reconcile_run is_standalone_task_run
    reconcile_task_run tr w =
        if not (is_standalone_task_run tr.metadata)
        then (ok tt, w)
        else reconcile_run resource_type_task_run (task_run tr) w
