-- ===== src/Safety/Events.antt =====
-- What a reconciliation tells the counter of reconciliation events.
use tektoncd_pruner.Prelude.{
  String, false, List, [], ◌∷◌, ◌≡◌, refl, ap, sym, ◌∙◌, subst, Bool-cases, inl, inr, some, arith,
  ◌==◌, if◌then◌else◌,
}
use tektoncd_pruner.Go.Exec.{Exec, Result, ok, err, Error}
use tektoncd_pruner.Kube.Object.{ObjectMeta, Object, PipelineRun, pipeline_run, meta}
use tektoncd_pruner.Kube.Api.{Platform}
use tektoncd_pruner.Metrics.Names.{
  resource_type_pipeline_run, metric_reconciliation_events, label_resource_type, label_namespace,
  label_status, status_success, status_error,
}
use tektoncd_pruner.Metrics.{
  Labels, Measurement, Recorder, Timer, add, record_seconds, record_resource_deleted,
  record_resource_error, record_history_processing_duration, record_ttl_processing_duration,
  record_reconciliation_event, record_resource_processed, record_reconciliation_duration, is_seen,
  classify_error, resource_attributes, operation_attributes,
}
use tektoncd_pruner.World.{World, read_clock}
use tektoncd_pruner.Runs.Reconcile.{
  finish, start_timer, stop_timer, timed, reconcile_run, reconcile_pipeline_run, failed, after_ttl,
  after_history,
}
use tektoncd_pruner.Safety.View.{
  Invariant, Sparing, HandlerMeasure, tells_deletion, tells_error, tells_history_time,
  tells_ttl_time,
}
use tektoncd_pruner.Safety.OfProcess.{of_process, process-IsCluster}
use tektoncd_pruner.Safety.Reconcilers.{IsCluster, timed-Spares, pr_history-Spares, pr_ttl-Spares}
use tektoncd_pruner.Safety.Collections.{collect_namespace-Spares}
use tektoncd_pruner.Pruner.Collect.{collect_namespace}
use tektoncd_pruner.History.Limit.{HistoryLimiter}
use tektoncd_pruner.History.Event.{process_event}
use tektoncd_pruner.Ttl.Annotation.{TtlHandler}
use tektoncd_pruner.Ttl.Event.{process_ttl_event}
use tektoncd_pruner.Runs.States.{pr_limiter, pr_handler}
use tektoncd_pruner.Runs.Order.{history_stage, ttl_stage, reconcile_run_step}
use tektoncd_pruner.Go.Time.{Time}

-- The labels of the reconciliation events, the latest first.
pub events : List Measurement → List Labels
events [] = []
events (add name n labels ∷ ms) =
    let rest = events ms in if name == metric_reconciliation_events then labels ∷ rest else rest
events (record_seconds name d labels ∷ ms) = events ms

handlers_tell_no_event :
    (f : Recorder → Recorder)
    → HandlerMeasure f
    → (r : Recorder) → events (f r).measurements ≡ events r.measurements
unfolding events record_resource_deleted record_resource_error record_history_processing_duration
    record_ttl_processing_duration
handlers_tell_no_event f (tells_deletion type namespace operation age) r = refl
handlers_tell_no_event f (tells_error type namespace error_type reason) r = refl
handlers_tell_no_event f (tells_history_time t now) r = refl
handlers_tell_no_event f (tells_ttl_time t now) r = refl

-- The labels of one event.
abbrev pub event_labels : String → String → String → Labels
event_labels type namespace status =
    (label_resource_type, type) ∷ (label_namespace, namespace) ∷ (label_status, status) ∷ []

processed_is_no_event :
    (uid type namespace status : String) (r : Recorder)
    → events (record_resource_processed uid type namespace status r).measurements
      ≡ events r.measurements
unfolding record_resource_processed events
processed_is_no_event uid type namespace status r = elim (Bool-cases (is_seen r uid)) [
  | inl seen ↦ rw seen refl
  | inr new ↦ rw new refl
]

module _ {S : Type 0} (p : Platform S) where
  finish_tells_event :
      (type : String) (m : ObjectMeta) (t : Timer) (status : String) (w : World S)
      → events (finish p type m t status w).recorder.measurements
        ≡ event_labels type m.namespace status ∷ events w.recorder.measurements
  unfolding finish stop_timer record_reconciliation_duration record_reconciliation_event events
      read_clock
  finish_tells_event type m t status w =
      processed_is_no_event m.uid type m.namespace status
        (record_reconciliation_event type m.namespace status w.recorder)

  abbrev events_of : World S → List Labels
  events_of w = events w.recorder.measurements

  failed_tells_no_event :
      (type : String) (m : ObjectMeta) (reason : String) (e : Error) (w : World S)
      → events_of (failed p type m reason e w) ≡ events_of w
  unfolding failed
  failed_tells_no_event type m reason e w =
      handlers_tell_no_event _
        (tells_error type m.namespace (classify_error p.errors (some e)) reason) w.recorder

  failed_reports :
      (type : String) (m : ObjectMeta) (t : Timer) (reason : String) (e : Error) (w : World S)
      → events_of (finish p type m t status_error (failed p type m reason e w))
        ≡ event_labels type m.namespace status_error ∷ events_of w
  failed_reports type m t reason e w =
      finish_tells_event type m t status_error (failed p type m reason e w)
      ∙ ap (◌∷◌ (event_labels type m.namespace status_error))
          (failed_tells_no_event type m reason e w)

  -- The status that is told for a result: a request to be called again may be told as either.
  abbrev pub Fits : Result (Unit {0}) → String → Type 0
  Fits (ok _) status = status ≡ status_success
  Fits (err e) status = p.errors.is_requeue_key e ≡ false → status ≡ status_error

  -- The events after a reconciliation: one more than before it, with the status of its result.
  pub record EventTold (type namespace : String) (before : List Labels)
      (q : Result (Unit {0}) × World S) : Type 0 where
    pub status : String
    pub fits : Fits q.0 status
    pub told : events q.1.recorder.measurements ≡ event_labels type namespace status ∷ before

  after_ttl-EventTold :
      (type : String) (m : ObjectMeta) (t : Timer) (q : Result (Unit {0}) × World S)
      → EventTold type m.namespace (events_of q.1) (after_ttl p type m t q)
  unfolding after_ttl
  after_ttl-EventTold type m t (ok _, w) = record {
    status = status_success;
    fits = refl;
    told = finish_tells_event type m t status_success w;
  }
  after_ttl-EventTold type m t (err e, w) = elim (Bool-cases (p.errors.is_requeue_key e)) [
    | inl requeued ↦ rw requeued (record {
      status = status_success;
      fits = λ h. absurd (ground (arith, requeued, h));
      told = finish_tells_event type m t status_success w;
    })
    | inr broken ↦ rw broken (record {
      status = status_error;
      fits = λ h. refl;
      told = failed_reports type m t "ttl_processing_failed" e w;
    })
  ]

  -- The TTL handler, in its timer, tells no event.
  after_history-EventTold :
      (type : String) (m : ObjectMeta) (t : Timer) (ttl : Exec (World S) (Unit {0}))
      (q : Result (Unit {0}) × World S)
      → ((w : World S) → events_of (ttl w).1 ≡ events_of w)
      → EventTold type m.namespace (events_of q.1) (after_history p type m t ttl q)
  unfolding after_history
  after_history-EventTold type m t ttl (ok _, w) h =
      subst (λ before. EventTold type m.namespace before (after_ttl p type m t (ttl w))) (h w)
        (after_ttl-EventTold type m t (ttl w))
  after_history-EventTold type m t ttl (err e, w) h = record {
    status = status_error;
    fits = λ k. refl;
    told = failed_reports type m t "history_processing_failed" e w;
  }

  -- The events are `es`.
  abbrev reported : List Labels → Invariant S
  reported es = of_process (λ store r. events r.measurements ≡ es)

  reported-IsCluster : (es : List Labels) → IsCluster (reported es) p
  reported-IsCluster es =
      process-IsCluster (λ store r. events r.measurements ≡ es) p
        (λ f told store r h. handlers_tell_no_event f told r ∙ h)

  -- A call that tells no event.
  abbrev Silent : Exec (World S) (Unit {0}) → Type 0
  Silent m = (es : List Labels) → Sparing (reported es) m

  events_stay :
      (m : Exec (World S) (Unit {0})) → Silent m → (w : World S) → events_of (m w).1 ≡ events_of w
  events_stay m h w = (h (events_of w) w).stays refl

  timed-Silent :
      (f : Timer → Time → Recorder → Recorder) (labels : Labels) (m : Exec (World S) (Unit {0}))
      → ((t : Timer) (now : Time) → HandlerMeasure (f t now))
      → Silent m
      → Silent (timed p f labels m)
  timed-Silent f labels m told h es =
      timed-Spares (reported es) p (reported-IsCluster es) f labels m told (h es)

  module _ (hl : HistoryLimiter (World S)) (th : TtlHandler (World S)) where
    run-EventTold :
        (type : String) (o : Object) (w : World S)
        → Silent (process_event p hl o)
        → Silent (process_ttl_event p th o)
        → EventTold type (meta o).namespace (events_of w) (reconcile_run p hl th type o w)
    unfolding start_timer read_clock
    run-EventTold type o w history ttl =
        let m : ObjectMeta = meta o in
        let (t, v) = start_timer p (resource_attributes type m.namespace) w in
        let q = history_stage p hl th type o v in
        subst (EventTold type m.namespace (events_of w))
          (sym (reconcile_run_step p hl th th type o w))
          (subst
            (λ before.
              EventTold type m.namespace before
                (after_history p type m t (ttl_stage p hl th th type o) q))
            (events_stay (history_stage p hl th type o)
              (timed-Silent record_history_processing_duration
                (operation_attributes type m.namespace "history") (process_event p hl o)
                tells_history_time history)
              v)
            (after_history-EventTold type m t (ttl_stage p hl th th type o) q (
              events_stay (ttl_stage p hl th th type o) (
                timed-Silent record_ttl_processing_duration
                  (operation_attributes type m.namespace "ttl") (process_ttl_event p th o)
                  tells_ttl_time ttl))))

  -- Every reconciliation of a PipelineRun tells exactly one reconciliation event, with its type and
  -- namespace: of success where no error is returned, and of an error where one is that is no request
  -- to be called again.
  pub reconciliation_is_reported_once :
      (pr : PipelineRun) (w : World S)
      → EventTold resource_type_pipeline_run pr.metadata.namespace
          (events w.recorder.measurements)
          (reconcile_pipeline_run p (pr_limiter p) (pr_handler p) pr w)
  unfolding reconcile_pipeline_run
  reconciliation_is_reported_once pr w =
      run-EventTold (pr_limiter p) (pr_handler p) resource_type_pipeline_run (pipeline_run pr) w
        (λ es. pr_history-Spares (reported es) p (reported-IsCluster es) (pipeline_run pr) tt)
        (λ es. pr_ttl-Spares (reported es) p (reported-IsCluster es) (pipeline_run pr) tt)

  -- The garbage collection of a namespace tells no reconciliation event.
  pub collection_is_not_reported :
      (update_time namespace : String) (w : World S)
      → events_of (collect_namespace p update_time namespace w) ≡ events_of w
  collection_is_not_reported update_time namespace w =
      (collect_namespace-Spares (reported (events_of w)) p (reported-IsCluster (events_of w))
          update_time namespace w tt).stays
        refl
