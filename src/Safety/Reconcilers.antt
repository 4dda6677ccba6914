-- ===== src/Safety/Reconcilers.antt =====
-- What both `ReconcileKind` do to an invariant of the cluster.
use tektoncd_pruner.Prelude.{String, ◌<>◌, Bool-cases, inl, inr, not, some}
use tektoncd_pruner.Go.Exec.{Exec, Result, ok, err, Error, wrap}
use tektoncd_pruner.Go.Time.{Time}
use tektoncd_pruner.Kube.Object.{
  Object, ObjectMeta, meta, PipelineRun, TaskRun, pipeline_run, task_run,
}
use tektoncd_pruner.Kube.Api.{Platform}
use tektoncd_pruner.Config.Spec.{kind_pipeline_run, kind_task_run}
use tektoncd_pruner.Metrics.{
  Recorder, Timer, Labels, resource_attributes, operation_attributes, classify_error,
  record_history_processing_duration, record_ttl_processing_duration,
}
use tektoncd_pruner.World.{World, read_clock}
use tektoncd_pruner.History.Limit.{HistoryLimiter}
use tektoncd_pruner.History.Event.{process_event}
use tektoncd_pruner.Ttl.Annotation.{TtlHandler}
use tektoncd_pruner.Ttl.Event.{process_ttl_event}
use tektoncd_pruner.Runs.PipelineRuns.{pr_is_completed, pr_get, pr_list, pr_patch, pr_delete}
use tektoncd_pruner.Runs.TaskRuns.{
  tr_is_completed, tr_get, tr_list, tr_patch, tr_delete, is_standalone_task_run,
}
use tektoncd_pruner.Runs.Reconcile.{
  start_timer, stop_timer, timed, finish, failed, after_ttl, after_history, reconcile_run,
  reconcile_pipeline_run, reconcile_task_run,
}
use tektoncd_pruner.Runs.States.{pr_limiter, tr_limiter, pr_handler, tr_handler}
use tektoncd_pruner.Safety.View.{
  Invariant, Spares, Spares-refl, Spares-trans, Sparing, IsRunKeeper, IsRunLister, IsQuiet,
  HandlerMeasure, measured-Spares, if_result-Spares, tells_error, tells_history_time,
  tells_ttl_time, read_clock-Spares,
}
use tektoncd_pruner.Safety.Limiter.{process_event-Spares}
use tektoncd_pruner.Safety.Expired.{process_ttl_event-Spares}
use tektoncd_pruner.Safety.Clients.{IsRunApi, as_keeper, as_lister}

module _ {S : Type 0} (inv : Invariant S) (p : Platform S) where
  -- What the API server promises of both kinds of run, and of the clock.
  pub record IsCluster : Type 0 where
    pub quiet : IsQuiet inv p
    pub pipeline_runs :
        IsRunApi inv kind_pipeline_run pipeline_run (pr_is_completed p) p.pipeline_runs
    pub task_runs : IsRunApi inv kind_task_run task_run (tr_is_completed p) p.task_runs

module _ {S : Type 0} (inv : Invariant S) (p : Platform S) (laws : IsCluster inv p) where
  pub pr_keeper :
      IsRunKeeper inv kind_pipeline_run (pr_is_completed p) (pr_get p) (pr_patch p) (pr_delete p)
  unfolding pr_get pr_patch pr_delete
  pr_keeper =
      as_keeper inv laws.pipeline_runs
        (λ namespace name. wrap ("failed to patch PipelineRun " <> (namespace <> ("/" <> name))))

  pub pr_lister : IsRunLister inv kind_pipeline_run (pr_is_completed p) (pr_list p)
  unfolding pr_list
  pr_lister = as_lister inv laws.pipeline_runs

  tr_keeper :
      IsRunKeeper inv kind_task_run (tr_is_completed p) (tr_get p) (tr_patch p) (tr_delete p)
  unfolding tr_get tr_patch tr_delete
  tr_keeper =
      as_keeper inv laws.task_runs
        (λ namespace name. wrap ("failed to patch TaskRun " <> (namespace <> ("/" <> name))))

  tr_lister : IsRunLister inv kind_task_run (tr_is_completed p) (tr_list p)
  unfolding tr_list
  tr_lister = as_lister inv laws.task_runs

  pub pr_history-Spares :
      (o : Object) → inv.allows (meta o).namespace → Sparing inv (process_event p (pr_limiter p) o)
  pr_history-Spares =
      process_event-Spares inv p laws.quiet (pr_limiter p) kind_pipeline_run pr_keeper pr_lister

  pub pr_ttl-Spares :
      (o : Object)
      → inv.allows (meta o).namespace
      → Sparing inv (process_ttl_event p (pr_handler p) o)
  pr_ttl-Spares =
      process_ttl_event-Spares inv p laws.quiet (pr_handler p) kind_pipeline_run
        (read_clock-Spares inv p laws.quiet) pr_keeper

  pub tr_history-Spares :
      (o : Object) → inv.allows (meta o).namespace → Sparing inv (process_event p (tr_limiter p) o)
  tr_history-Spares =
      process_event-Spares inv p laws.quiet (tr_limiter p) kind_task_run tr_keeper tr_lister

  pub tr_ttl-Spares :
      (o : Object)
      → inv.allows (meta o).namespace
      → Sparing inv (process_ttl_event p (tr_handler p) o)
  tr_ttl-Spares =
      process_ttl_event-Spares inv p laws.quiet (tr_handler p) kind_task_run
        (read_clock-Spares inv p laws.quiet) tr_keeper

  start_timer-Spares : (labels : Labels) (w : World S) → Spares inv w (start_timer p labels w).1
  unfolding start_timer
  start_timer-Spares labels w = read_clock-Spares inv p laws.quiet w

  -- A duration that the handlers tell the recorder.
  abbrev pub TellsDuration : (Timer → Time → Recorder → Recorder) → Type 0
  TellsDuration f = (t : Timer) (now : Time) → HandlerMeasure (f t now)

  pub stop_timer-Spares :
      (f : Timer → Time → Recorder → Recorder) (t : Timer) (w : World S)
      → TellsDuration f
      → Spares inv w (stop_timer p f t w)
  unfolding stop_timer
  stop_timer-Spares f t w told =
      measured-Spares inv laws.quiet (told t (read_clock p w).0)
        (read_clock-Spares inv p laws.quiet w)

  pub timed-Spares :
      (f : Timer → Time → Recorder → Recorder) (labels : Labels) (m : Exec (World S) (Unit {0}))
      → TellsDuration f
      → Sparing inv m
      → Sparing inv (timed p f labels m)
  unfolding timed
  timed-Spares f labels m told h w =
      let (t, v) = start_timer p labels w in
      Spares-trans inv (start_timer-Spares labels w)
        (Spares-trans inv (h v) (stop_timer-Spares f t (m v).1 told))

  -- The end of a reconciliation: the two deferred functions.
  abbrev pub Finishing : Type 0
  Finishing =
      (type : String) (m : ObjectMeta) (t : Timer) (status : String) (w : World S)
      → Spares inv w (finish p type m t status w)

  failed-Spares :
      (type : String) (m : ObjectMeta) (reason : String) (e : Error) (w : World S)
      → Spares inv w (failed p type m reason e w)
  unfolding failed
  failed-Spares type m reason e w =
      laws.quiet.measured (tells_error type m.namespace (classify_error p.errors (some e)) reason) w

  after_ttl-Spares :
      Finishing
      → (type : String) (m : ObjectMeta) (t : Timer) (q : Result (Unit {0}) × World S)
      → Spares inv q.1 (after_ttl p type m t q).1
  unfolding after_ttl
  after_ttl-Spares finishing type m t (ok _, w) = finishing type m t "success" w
  after_ttl-Spares finishing type m t (err e, w) =
      if_result-Spares inv (not (p.errors.is_requeue_key e)) _ _
        (Spares-trans inv (failed-Spares type m "ttl_processing_failed" e w)
          (finishing type m t "error" _))
        (finishing type m t "success" w)

  pub after_history-Spares :
      Finishing
      → (type : String) (m : ObjectMeta) (t : Timer) (ttl : Exec (World S) (Unit {0}))
        (q : Result (Unit {0}) × World S)
      → Sparing inv ttl
      → Spares inv q.1 (after_history p type m t ttl q).1
  unfolding after_history
  after_history-Spares finishing type m t ttl (ok _, w) h =
      Spares-trans inv (h w) (after_ttl-Spares finishing type m t (ttl w))
  after_history-Spares finishing type m t ttl (err e, w) h =
      Spares-trans inv (failed-Spares type m "history_processing_failed" e w)
        (finishing type m t "error" _)

  reconcile_run-Spares :
      Finishing
      → (hl : HistoryLimiter (World S)) (th : TtlHandler (World S)) (type : String) (o : Object)
      → Sparing inv (process_event p hl o)
      → Sparing inv (process_ttl_event p th o)
      → Sparing inv (reconcile_run p hl th type o)
  unfolding reconcile_run
  reconcile_run-Spares finishing hl th type o history ttl w =
      let (t, v) = start_timer p (resource_attributes type (meta o).namespace) w in
      let limited =
        timed-Spares record_history_processing_duration
          (operation_attributes type (meta o).namespace "history") (process_event p hl o)
          tells_history_time history in
      let expired =
        timed-Spares record_ttl_processing_duration
          (operation_attributes type (meta o).namespace "ttl") (process_ttl_event p th o)
          tells_ttl_time ttl in
      Spares-trans inv (start_timer-Spares (resource_attributes type (meta o).namespace) w) (
        Spares-trans inv (limited v) (
          after_history-Spares finishing type (meta o) t
            (timed p record_ttl_processing_duration
              (operation_attributes type (meta o).namespace "ttl") (process_ttl_event p th o))
            (timed p record_history_processing_duration
              (operation_attributes type (meta o).namespace "history") (process_event p hl o) v)
            expired))

  pub reconcile_pipeline_run-Spares :
      Finishing
      → (pr : PipelineRun) → inv.allows pr.metadata.namespace
      → Sparing inv (reconcile_pipeline_run p (pr_limiter p) (pr_handler p) pr)
  unfolding reconcile_pipeline_run
  reconcile_pipeline_run-Spares finishing pr a =
      reconcile_run-Spares finishing (pr_limiter p) (pr_handler p) "pipelinerun" (pipeline_run pr)
        (pr_history-Spares (pipeline_run pr) a) (pr_ttl-Spares (pipeline_run pr) a)

  pub reconcile_task_run-Spares :
      Finishing
      → (tr : TaskRun) → inv.allows tr.metadata.namespace
      → Sparing inv (reconcile_task_run p (tr_limiter p) (tr_handler p) tr)
  unfolding reconcile_task_run
  reconcile_task_run-Spares finishing tr a w =
      elim (Bool-cases (is_standalone_task_run tr.metadata)) [
        | inl standalone ↦ rw standalone (
            reconcile_run-Spares finishing (tr_limiter p) (tr_handler p) "taskrun" (task_run tr)
              (tr_history-Spares (task_run tr) a) (tr_ttl-Spares (task_run tr) a) w)
        | inr owned ↦ rw owned (Spares-refl inv w)
      ]
