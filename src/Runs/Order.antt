-- ===== src/Runs/Order.antt =====
-- What `ReconcileKind` of the two reconcilers runs, in which order, and which TaskRuns it passes
-- over.
use tektoncd_pruner.Prelude.{
  String, Bool, true, false, none, some, List, [], ◌∷◌, ◌≡◌, refl, ap, sym, ◌∙◌, arith, ◌==◌,
  if◌then◌else◌, not, ◌||◌, ◌&&◌, any, is_some, ltb, length,
}
use tektoncd_pruner.Go.Dict.{Dict, at, find}
use tektoncd_pruner.Go.Exec.{Exec, Result, ok, err, Error}
use tektoncd_pruner.Kube.Object.{Object, ObjectMeta, OwnerReference, TaskRun, task_run, meta}
use tektoncd_pruner.Kube.Api.{Platform}
use tektoncd_pruner.Config.Spec.{kind_pipeline_run, label_pipeline_run_name}
use tektoncd_pruner.Metrics.{
  Timer, resource_attributes, operation_attributes, record_ttl_processing_duration,
  record_history_processing_duration,
}
use tektoncd_pruner.World.{World, read_clock}
use tektoncd_pruner.History.Limit.{HistoryLimiter}
use tektoncd_pruner.History.Event.{process_event}
use tektoncd_pruner.Ttl.Annotation.{TtlHandler}
use tektoncd_pruner.Ttl.Event.{process_ttl_event}
use tektoncd_pruner.Runs.TaskRuns.{is_standalone_task_run, filter_task_run, owned_by_pipeline_run}
use tektoncd_pruner.Runs.Reconcile.{
  reconcile_run, reconcile_task_run, timed, start_timer, after_history,
}

-- A run that a PipelineRun made: by its label, or by any one of its owners.
abbrev pub has_parent : ObjectMeta → Bool
has_parent m =
    not (at m.labels label_pipeline_run_name == "")
    || any (λ r. r.kind == kind_pipeline_run) m.owner_references

owned_by-eq-any :
    (rs : List OwnerReference)
    → owned_by_pipeline_run rs ≡ any (λ r. r.kind == kind_pipeline_run) rs
unfolding owned_by_pipeline_run
owned_by-eq-any [] = refl
owned_by-eq-any (r ∷ rs) = ground (arith, owned_by-eq-any rs)

standalone_parts :
    (labels : Dict String) (rs : List OwnerReference)
    → (if is_some labels && not (at labels label_pipeline_run_name == "")
        then false
        else if ltb 0 (length rs)
        then not (owned_by_pipeline_run rs)
        else true)
      ≡ not (
          not (at labels label_pipeline_run_name == "")
          || any (λ r. r.kind == kind_pipeline_run) rs)
unfolding owned_by_pipeline_run find
standalone_parts none [] = refl
standalone_parts none (r ∷ rs) = ground (arith, owned_by-eq-any rs)
standalone_parts (some l) [] = ground arith
standalone_parts (some l) (r ∷ rs) = ground (arith, owned_by-eq-any rs)

is_standalone-eq : (m : ObjectMeta) → is_standalone_task_run m ≡ not (has_parent m)
unfolding is_standalone_task_run
is_standalone-eq m = standalone_parts m.labels m.owner_references

filter_task_run_step :
    (m : ObjectMeta)
    → filter_task_run m
      ≡ (if not (is_standalone_task_run m) then none else some (m.namespace, m.name))
unfolding filter_task_run
filter_task_run_step m = refl

module _ {S : Type 0} (p : Platform S) (hl : HistoryLimiter (World S))
    (th : TtlHandler (World S)) where
  reconcile_task_run_step :
      (tr : TaskRun) (w : World S)
      → reconcile_task_run p hl th tr w ≡ (
          if not (is_standalone_task_run tr.metadata)
          then (ok tt, w)
          else reconcile_run p hl th "taskrun" (task_run tr) w)
  unfolding reconcile_task_run
  reconcile_task_run_step tr w = refl

  -- A TaskRun that a PipelineRun made, by its label or by an owner at any place, is not enqueued
  -- and, if it is reconciled all the same, nothing is called and no metric recorded.
  pub owned_task_run_is_left_alone :
      (tr : TaskRun) (w : World S)
      → has_parent tr.metadata ≡ true
      → (filter_task_run tr.metadata ≡ none) × (reconcile_task_run p hl th tr w ≡ (ok tt, w))
  owned_task_run_is_left_alone tr w h =
      let owned : is_standalone_task_run tr.metadata ≡ false =
        is_standalone-eq tr.metadata ∙ ap not h in
      (
        filter_task_run_step tr.metadata
            ∙ ap (λ b. if not b then none else some (tr.metadata.namespace, tr.metadata.name))
                owned,
        reconcile_task_run_step tr w
            ∙ ap
                (λ b. if not b then (ok tt, w) else reconcile_run p hl th "taskrun" (task_run tr) w)
                owned,
      )

  -- The state in which the history limiter starts, after the two timers were started.
  abbrev pub after_timers : World S → World S
  after_timers w = (read_clock p (read_clock p w).1).1

  abbrev pub ttl_stage : TtlHandler (World S) → String → Object → Exec (World S) (Unit {0})
  ttl_stage th type resource =
      timed p record_ttl_processing_duration
        (operation_attributes type (meta resource).namespace "ttl")
        (process_ttl_event p th resource)

  abbrev pub history_stage : String → Object → Exec (World S) (Unit {0})
  history_stage type resource =
      timed p record_history_processing_duration
        (operation_attributes type (meta resource).namespace "history")
        (process_event p hl resource)

  pub reconcile_run_step :
      (th : TtlHandler (World S)) (type : String) (resource : Object) (w : World S)
      → reconcile_run p hl th type resource w
        ≡ after_history p type
            (meta resource)
            (start_timer p (resource_attributes type (meta resource).namespace) w).0
            (ttl_stage th type resource)
            (history_stage type resource
              (start_timer p (resource_attributes type (meta resource).namespace) w).1)
  unfolding reconcile_run
  reconcile_run_step th type resource w = refl

  pub history_stage_result :
      (type : String) (resource : Object) (w : World S)
      → (history_stage type resource
          (start_timer p (resource_attributes type (meta resource).namespace) w).1).0
        ≡ (process_event p hl resource (after_timers w)).0
  unfolding timed start_timer
  history_stage_result type resource w = refl

  after_history_err :
      (type : String) (m : ObjectMeta) (t : Timer) (e : Error)
      (ttl ttl' : Exec (World S) (Unit {0})) (q : Result (Unit {0}) × World S)
      → q.0 ≡ err e
      → ((after_history p type m t ttl q).0 ≡ err e)
        × (after_history p type m t ttl q ≡ after_history p type m t ttl' q)
  unfolding after_history
  after_history_err type m t e ttl ttl' (ok _, v) h = absurd (ground (arith, h))
  after_history_err type m t e ttl ttl' (err e', v) h = (h, refl)

  -- An error of the history limiter is the reconciler's, and the TTL handler does not run: with any
  -- other one the outcome is the same.
  pub history_error_stops_ttl :
      (other : TtlHandler (World S)) (type : String) (resource : Object) (w : World S) (e : Error)
      → (process_event p hl resource (after_timers w)).0 ≡ err e
      → ((reconcile_run p hl th type resource w).0 ≡ err e)
        × (reconcile_run p hl th type resource w ≡ reconcile_run p hl other type resource w)
  history_error_stops_ttl other type resource w e h =
      let m : ObjectMeta = meta resource in
      let (same, equal) =
        after_history_err type m (start_timer p (resource_attributes type m.namespace) w).0 e
          (ttl_stage th type resource) (ttl_stage other type resource)
          (history_stage type resource (start_timer p (resource_attributes type m.namespace) w).1)
          (history_stage_result type resource w ∙ h) in
      (
        ap (λ r. r.0) (reconcile_run_step th type resource w) ∙ same,
        reconcile_run_step th type resource w
            ∙ equal
            ∙ sym (reconcile_run_step other type resource w),
      )
