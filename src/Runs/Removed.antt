-- ===== src/Runs/Removed.antt =====
-- A PipelineRun whose TTL is over and that the history limiter has dealt with, through
-- `ReconcileKind` of pipelinerun/reconciler.go as a whole.
use text.Mathlib.TextPositions.{eq_refl}
use tektoncd_pruner.Prelude.{
  String, ℕ, pos, Bool, true, false, not, some, List, [], ◌≡◌, refl, ap, sym, ◌∙◌, subst, arith,
  keep, if◌then◌else◌,
}
use tektoncd_pruner.Go.Exec.{Exec, Result, ok, continue}
use tektoncd_pruner.Go.Decimal.{itoa}
use tektoncd_pruner.Go.Time.{Time}
use tektoncd_pruner.Kube.Object.{Object, PipelineRun, pipeline_run}
use tektoncd_pruner.Kube.Api.{Platform}
use tektoncd_pruner.Metrics.{Timer}
use tektoncd_pruner.World.{World, read_clock}
use tektoncd_pruner.History.Event.{is_processed, process_event}
use tektoncd_pruner.History.Enforcement.{Gone}
use tektoncd_pruner.Ttl.Annotation.{needs_ttl_update, configured_ttl, update_annotation_ttl_seconds}
use tektoncd_pruner.Ttl.Expiry.{needs_cleanup}
use tektoncd_pruner.Ttl.Event.{process_ttl_event, remove_resource}
use tektoncd_pruner.Ttl.Removal.{HasTtl, needs_cleanup_of_text}
use tektoncd_pruner.Ttl.Value.{NoOverflow}
use tektoncd_pruner.Runs.PipelineRuns.{pr_delete, pr_ttl_funcs}
use tektoncd_pruner.Runs.States.{pr_limiter, pr_handler}
use tektoncd_pruner.Metrics.Names.{resource_type_pipeline_run}
use tektoncd_pruner.Metrics.{
  resource_attributes, operation_attributes, record_history_processing_duration,
  record_ttl_processing_duration,
}
use tektoncd_pruner.Runs.Reconcile.{
  start_timer, stop_timer, timed, after_ttl, after_history, reconcile_run, reconcile_pipeline_run,
}
use tektoncd_pruner.Runs.Order.{ttl_stage, history_stage, reconcile_run_step}
use tektoncd_pruner.Runs.Expired.{
  IsRemoved, IsExpired, stop_timer-IsRemoved, after_ttl-IsRemoved, remove_resource-IsRemoved,
}
use tektoncd_pruner.Runs.Enforced.{IsPipelineServer, has_run_key}

module _ {S : Type 0} (p : Platform S) (prs : S → List PipelineRun)
    (selects : String → String → PipelineRun → Bool) (laws : IsPipelineServer p prs selects)
    (succeeds : (namespace name : String) (w : World S)
      → Gone p (pr_limiter p) (pr_delete p namespace name w).0)
    (due : S → Type 0) (pr : PipelineRun) (finish : Time) (n : ℕ)
    (expired : IsExpired p due pr finish n)
    (h : HasTtl (pr_ttl_funcs p) (pipeline_run pr) finish n) where
  abbrev o : Object
  o = pipeline_run pr

  abbrev Removed : Result (Unit {0}) × World S → Type 0
  Removed = IsRemoved p prs selects laws pr.metadata.namespace pr.metadata.name

  current_when_configured :
      (w : World S)
      → configured_ttl (pr_ttl_funcs p) pr.metadata w ≡ some (pos n)
      → needs_ttl_update (pr_ttl_funcs p) pr.metadata w ≡ false
  unfolding needs_ttl_update
  current_when_configured w configured =
      rw h.annotated (rw configured (ground (arith, eq_refl (itoa (pos n)))))

  no_update :
      (w : World S)
      → needs_ttl_update (pr_ttl_funcs p) pr.metadata w ≡ false
      → update_annotation_ttl_seconds p (pr_ttl_funcs p) o w ≡ (ok tt, w)
  unfolding update_annotation_ttl_seconds
  no_update w current = rw current refl

  clean_up : Result (Unit {0}) × World S → Result (Unit {0}) × World S
  clean_up = continue (λ _ w'.
      if not (needs_cleanup (pr_ttl_funcs p) o)
      then (ok tt, w')
      else remove_resource p (pr_handler p) o w')

  clean_up_needed :
      (w : World S)
      → needs_cleanup (pr_ttl_funcs p) o ≡ true
      → clean_up (ok tt, w) ≡ remove_resource p (pr_handler p) o w
  unfolding clean_up
  clean_up_needed w needed = rw needed refl

  process_ttl_event_step :
      (w : World S)
      → process_ttl_event p (pr_handler p) o w
        ≡ clean_up (update_annotation_ttl_seconds p (pr_ttl_funcs p) o w)
  unfolding process_ttl_event clean_up
  process_ttl_event_step w = rw h.live (rw h.completed refl)

  ttl_event_removes :
      (w : World S)
      → due w.cluster
      → configured_ttl (pr_ttl_funcs p) pr.metadata w ≡ some (pos n)
      → Removed (process_ttl_event p (pr_handler p) o w)
  ttl_event_removes w here configured =
      subst Removed
        (sym (
          process_ttl_event_step w
          ∙ ap clean_up (no_update w (current_when_configured w configured))
          ∙ clean_up_needed w (
              needs_cleanup_of_text (pr_ttl_funcs p) o n h.completed h.annotated
                (let fits : NoOverflow n = h.fits in omega arith))))
        (remove_resource-IsRemoved p prs selects laws succeeds due pr finish n expired w here h)

  process_event_skips :
      (w : World S) → is_processed o ≡ true → process_event p (pr_limiter p) o w ≡ (ok tt, w)
  unfolding process_event
  process_event_skips w processed = rw h.live (rw processed refl)

  ttl_stage-IsRemoved :
      (type : String) (w : World S)
      → due w.cluster
      → configured_ttl (pr_ttl_funcs p) pr.metadata w ≡ some (pos n)
      → Removed (ttl_stage p (pr_limiter p) (pr_handler p) (pr_handler p) type o w)
  unfolding timed start_timer read_clock configured_ttl
  ttl_stage-IsRemoved type w here configured =
      stop_timer-IsRemoved p prs selects laws pr.metadata.namespace pr.metadata.name
        record_ttl_processing_duration
        (start_timer p (operation_attributes type pr.metadata.namespace "ttl") w).0
        (process_ttl_event p (pr_handler p) o (read_clock p w).1)
        (ttl_event_removes (read_clock p w).1 (expired.later w.cluster here) configured)

  history_stage_step :
      (type : String) (w : World S)
      → is_processed o ≡ true
      → history_stage p (pr_limiter p) (pr_handler p) type o w ≡ (
        ok tt,
        stop_timer p record_history_processing_duration
            (start_timer p (operation_attributes type pr.metadata.namespace "history") w).0
            (start_timer p (operation_attributes type pr.metadata.namespace "history") w).1,
      )
  unfolding timed
  history_stage_step type w processed =
      let (t, v) = start_timer p (operation_attributes type pr.metadata.namespace "history") w in
      ap (λ q. (q.0, stop_timer p record_history_processing_duration t q.1))
        (process_event_skips v processed)

  after_history_step :
      (type : String) (t : Timer) (ttl : Exec (World S) (Unit {0})) (v : World S)
      → after_history p type pr.metadata t ttl (ok tt, v) ≡ after_ttl p type pr.metadata t (ttl v)
  unfolding after_history
  after_history_step type t ttl v = refl

  reconcile_step :
      (w : World S)
      → reconcile_pipeline_run p (pr_limiter p) (pr_handler p) pr w
        ≡ reconcile_run p (pr_limiter p) (pr_handler p) resource_type_pipeline_run o w
  unfolding reconcile_pipeline_run
  reconcile_step w = refl

  -- The state in which the TTL handler starts, after the history limiter had nothing to do.
  after_skipped : String → World S → World S
  after_skipped type w =
      stop_timer p record_history_processing_duration
        (start_timer p (operation_attributes type pr.metadata.namespace "history") w).0
        (start_timer p (operation_attributes type pr.metadata.namespace "history") w).1

  after_skipped-due :
      (type : String) (w : World S) → due w.cluster → due (after_skipped type w).cluster
  unfolding after_skipped stop_timer start_timer read_clock
  after_skipped-due type w here = expired.later _ (expired.later w.cluster here)

  after_skipped-store : (type : String) (w : World S) → (after_skipped type w).store ≡ w.store
  unfolding after_skipped stop_timer start_timer read_clock
  after_skipped-store type w = refl

  -- With an API server that keeps to `IsPipelineServer` and whose deletions succeed or find no run:
  -- a PipelineRun that the history limiter has dealt with is live and completed, its TTL of `n`
  -- seconds, at most 9223372036, is the configured one and is over, and the run is stored with it.
  -- Then a reconciliation of it returns no error and leaves no run of its namespace and name.
  pub reconciliation_removes_expired :
      (w : World S)
      → due w.cluster
      → is_processed o ≡ true
      → configured_ttl (pr_ttl_funcs p) pr.metadata w ≡ some (pos n)
      → ((reconcile_pipeline_run p (pr_limiter p) (pr_handler p) pr w).0 ≡ ok tt)
        × (keep
              (has_run_key pr.metadata.namespace pr.metadata.name)
              (prs (reconcile_pipeline_run p (pr_limiter p) (pr_handler p) pr w).1.cluster)
            ≡ [])
  unfolding IsRemoved after_skipped start_timer stop_timer read_clock configured_ttl
  reconciliation_removes_expired w here processed configured =
      let type = resource_type_pipeline_run in
      let labels = resource_attributes type pr.metadata.namespace in
      let (t, w') = start_timer p labels w in
      let ttl = ttl_stage p (pr_limiter p) (pr_handler p) (pr_handler p) type o in
      let v : World S = after_skipped type w' in
      subst Removed
        (sym (
          reconcile_step w
          ∙ reconcile_run_step p (pr_limiter p) (pr_handler p) (pr_handler p) type o w
          ∙ ap (after_history p type pr.metadata t ttl) (history_stage_step type w' processed)
          ∙ after_history_step type t ttl v))
        (after_ttl-IsRemoved p prs selects laws pr.metadata.namespace pr.metadata.name type
          pr.metadata t (ttl v)
          (ttl_stage-IsRemoved type v (after_skipped-due type w' (expired.later w.cluster here))
            configured))
