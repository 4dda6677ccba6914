-- ===== src/Safety/Collections.antt =====
-- What the garbage collection of tektonpruner/controller.go does to an invariant of the cluster.
use tektoncd_pruner.Prelude.{
  ap, All, String, not, ◌&&◌, Bool-cases, List, [], ◌∷◌, inl, inr, ◌==◌, is_some,
}
use tektoncd_pruner.Go.Dict.{at}
use tektoncd_pruner.Go.Exec.{Exec, Result, ok, err}
use tektoncd_pruner.Go.Time.{Time, after}
use tektoncd_pruner.Kube.Object.{Object, meta, PipelineRun, TaskRun, pipeline_run, task_run}
use tektoncd_pruner.Kube.Api.{Platform, Patch, remove_annotation}
use tektoncd_pruner.Config.Spec.{annotation_processed}
use tektoncd_pruner.World.{World, call}
use tektoncd_pruner.History.Limit.{HistoryLimiter}
use tektoncd_pruner.History.Event.{process_event}
use tektoncd_pruner.Ttl.Annotation.{TtlHandler}
use tektoncd_pruner.Ttl.Event.{process_ttl_event}
use tektoncd_pruner.Runs.States.{pr_limiter, tr_limiter, pr_handler, tr_handler}
use tektoncd_pruner.Pruner.Collect.{
  unless_error, recheck, collect_handlers, collect_run, collect_pipeline_runs, collect_task_runs,
  cleanup_prs, cleanup_trs, collect_namespace,
}
use tektoncd_pruner.Safety.View.{
  Invariant, Spares, Spares-refl, Spares-trans, Sparing, if-Spares, continue-Spares,
}
use tektoncd_pruner.Safety.Reconcilers.{
  IsCluster, pr_history-Spares, pr_ttl-Spares, tr_history-Spares, tr_ttl-Spares,
}

module _ {S : Type 0} (inv : Invariant S) (p : Platform S) where
  unless_error-Spares :
      (next : World S → World S) (s : World S) (q : Result (Unit {0}) × World S)
      → Spares inv s q.1
      → ((w : World S) → Spares inv w (next w))
      → Spares inv s (unless_error p next q)
  unless_error-Spares next s (ok _, w) h k = Spares-trans inv h (k w)
  unless_error-Spares next s (err e, w) h k = h

  module _ (hl : HistoryLimiter (World S)) (th : TtlHandler (World S))
      (history : (o : Object) → inv.allows (meta o).namespace → Sparing inv (process_event p hl o))
      (ttl : (o : Object) → inv.allows (meta o).namespace → Sparing inv (process_ttl_event p th o))
      (patch : String → String → Patch → Exec (World S) (Unit {0}))
      (patching : (namespace name : String) (d : Patch)
        → inv.allows namespace
        → Sparing inv (patch namespace name d)) where
    collect_handlers-Spares :
        (o : Object) (w : World S)
        → inv.allows (meta o).namespace
        → Spares inv w (collect_handlers p hl th o w)
    unfolding collect_handlers
    collect_handlers-Spares o w a =
        unless_error-Spares (λ v. (process_ttl_event p th o v).1) w (process_event p hl o w)
          (history o a w) (ttl o a)

    recheck-Spares :
        (o : Object) (marked updated : Result Time)
        → inv.allows (meta o).namespace
        → Sparing inv (recheck p patch o marked updated)
    unfolding recheck
    recheck-Spares o (err e) updated a w = Spares-refl inv w
    recheck-Spares o (ok t) (err e) a w = Spares-refl inv w
    recheck-Spares o (ok t) (ok u) a w = elim (Bool-cases (after u t)) [
      | inl stale ↦
          rw stale
            (patching (meta o).namespace (meta o).name (remove_annotation annotation_processed) a w)
      | inr current ↦ rw current (Spares-refl inv w)
    ]

    pub collect_run-Spares :
        (update_time : String) (o : Object)
        → inv.allows (meta o).namespace
        → (w : World S) → Spares inv w (collect_run p hl th patch update_time o w)
    unfolding collect_run
    collect_run-Spares update_time o a w =
        let mark = at (meta o).annotations annotation_processed in
        elim (Bool-cases (mark == "")) [
          | inl unmarked ↦ rw unmarked (collect_handlers-Spares o w a)
          | inr marked ↦ rw marked (
              unless_error-Spares (collect_handlers p hl th o) w
                (recheck p patch o (p.parse_rfc3339 mark) (p.parse_rfc3339 update_time) w)
                (recheck-Spares o (p.parse_rfc3339 mark) (p.parse_rfc3339 update_time) a w)
                (λ v. collect_handlers-Spares o v a))
        ]

module _ {S : Type 0} (inv : Invariant S) (p : Platform S) (laws : IsCluster inv p) where
  collect_pipeline_run-Spares :
      (update_time : String) (pr : PipelineRun)
      → inv.allows pr.metadata.namespace
      → (w : World S)
      → Spares inv w (
          collect_run p
            (pr_limiter p)
            (pr_handler p)
            (λ namespace name patch. call (p.pipeline_runs.patch namespace name patch))
            update_time
            (pipeline_run pr)
            w)
  unfolding call
  collect_pipeline_run-Spares update_time pr a =
      collect_run-Spares inv p (pr_limiter p) (pr_handler p) (pr_history-Spares inv p laws)
        (pr_ttl-Spares inv p laws)
        (λ namespace name patch. call (p.pipeline_runs.patch namespace name patch))
        (λ namespace name patch allowed w.
          laws.pipeline_runs.patching namespace name patch allowed w)
        update_time (pipeline_run pr) a

  collect_task_run-Spares :
      (update_time : String) (tr : TaskRun)
      → inv.allows tr.metadata.namespace
      → (w : World S)
      → Spares inv w (
          collect_run p
            (tr_limiter p)
            (tr_handler p)
            (λ namespace name patch. call (p.task_runs.patch namespace name patch))
            update_time
            (task_run tr)
            w)
  unfolding call
  collect_task_run-Spares update_time tr a =
      collect_run-Spares inv p (tr_limiter p) (tr_handler p) (tr_history-Spares inv p laws)
        (tr_ttl-Spares inv p laws)
        (λ namespace name patch. call (p.task_runs.patch namespace name patch))
        (λ namespace name patch allowed w. laws.task_runs.patching namespace name patch allowed w)
        update_time (task_run tr) a

  pub collect_pipeline_runs-Spares :
      (update_time : String) (prs : List PipelineRun) (w : World S)
      → All (λ pr. inv.allows pr.metadata.namespace) prs
      → Spares inv w (collect_pipeline_runs p update_time prs w)
  unfolding collect_pipeline_runs
  collect_pipeline_runs-Spares update_time [] w h = Spares-refl inv w
  collect_pipeline_runs-Spares update_time (pr ∷ prs) w h =
      Spares-trans inv
        (if-Spares inv (is_some pr.status.completion_time) _ w
          (collect_pipeline_run-Spares update_time pr h.0 w) (Spares-refl inv w))
        (collect_pipeline_runs-Spares update_time prs _ h.1)

  collect_task_runs-Spares :
      (update_time : String) (trs : List TaskRun) (w : World S)
      → All (λ tr. inv.allows tr.metadata.namespace) trs
      → Spares inv w (collect_task_runs p update_time trs w)
  unfolding collect_task_runs
  collect_task_runs-Spares update_time [] w h = Spares-refl inv w
  collect_task_runs-Spares update_time (tr ∷ trs) w h =
      Spares-trans inv
        (if-Spares inv
          (is_some tr.status.completion_time && not (p.has_pipeline_run_owner_reference tr)) _ w
          (collect_task_run-Spares update_time tr h.0 w) (Spares-refl inv w))
        (collect_task_runs-Spares update_time trs _ h.1)

  cleanup_prs-Spares :
      (namespace update_time : String)
      → inv.allows namespace
      → Sparing inv (cleanup_prs p namespace update_time)
  unfolding cleanup_prs call
  cleanup_prs-Spares namespace update_time a w =
      continue-Spares inv (λ prs v. (ok tt, collect_pipeline_runs p update_time prs v))
        (call (p.pipeline_runs.list namespace "") w) (laws.pipeline_runs.listing namespace "" w)
        (λ prs e.
          collect_pipeline_runs-Spares update_time prs _
            (laws.pipeline_runs.inside namespace "" w.cluster a (ap (λ q. (q.0, q.1.cluster)) e)))

  pub cleanup_trs-Spares :
      (namespace update_time : String)
      → inv.allows namespace
      → Sparing inv (cleanup_trs p namespace update_time)
  unfolding cleanup_trs call
  cleanup_trs-Spares namespace update_time a w =
      continue-Spares inv (λ trs v. (ok tt, collect_task_runs p update_time trs v))
        (call (p.task_runs.list namespace "") w) (laws.task_runs.listing namespace "" w)
        (λ trs e.
          collect_task_runs-Spares update_time trs _
            (laws.task_runs.inside namespace "" w.cluster a (ap (λ q. (q.0, q.1.cluster)) e)))

  -- The collection of a namespace keeps the invariant.
  pub collect_namespace-Spares :
      (update_time namespace : String) (w : World S)
      → inv.allows namespace
      → Spares inv w (collect_namespace p update_time namespace w)
  unfolding collect_namespace
  collect_namespace-Spares update_time namespace w a =
      unless_error-Spares inv p (λ v. (cleanup_trs p namespace update_time v).1) w
        (cleanup_prs p namespace update_time w) (cleanup_prs-Spares namespace update_time a w)
        (cleanup_trs-Spares namespace update_time a)
