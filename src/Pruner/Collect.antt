-- ===== src/Pruner/Collect.antt =====
-- `cleanupPRs` and `cleanupTRs`: the garbage collection of one namespace. Its errors are only
-- logged, but for an error of the listing.
use tektoncd_pruner.Prelude.{String, not, ◌&&◌, List, [], ◌∷◌, ◌==◌, if◌then◌else◌, is_some}
use tektoncd_pruner.Go.Dict.{at, find}
use tektoncd_pruner.Go.Exec.{Exec, Result, ok, err, continue}
use tektoncd_pruner.Go.Time.{Time, after}
use tektoncd_pruner.Kube.Object.{Object, meta, PipelineRun, TaskRun, pipeline_run, task_run}
use tektoncd_pruner.Kube.Api.{Platform, Patch, remove_annotation}
use tektoncd_pruner.Config.Spec.{annotation_processed}
use tektoncd_pruner.World.{World, call, read_clock}
use tektoncd_pruner.History.Limit.{HistoryLimiter}
use tektoncd_pruner.History.Event.{process_event}
use tektoncd_pruner.Ttl.Annotation.{TtlHandler}
use tektoncd_pruner.Ttl.Event.{process_ttl_event}
use tektoncd_pruner.Runs.PipelineRuns.{pr_history_funcs, pr_ttl_funcs}
use tektoncd_pruner.Runs.TaskRuns.{tr_history_funcs, tr_ttl_funcs}

module _ {S : Type 0} (p : Platform S) where
  -- what follows a call that may end the round of the loop; its error is only logged
  abbrev pub unless_error : (World S → World S) → Result (Unit {0}) × World S → World S
  unless_error next (ok _, w) = next w
  unless_error next (err e, w) = w

  -- the removal of the mark of a run that was processed before the ConfigMap was loaded
  unfoldable pub recheck :
      (String → String → Patch → Exec (World S) (Unit {0}))
      → Object
      → Result Time
      → Result Time
      → Exec (World S) (Unit {0})
  recheck patch resource (err e) update_time w = (err e, w)
  recheck patch resource (ok annotation_time) (err e) w = (err e, w)
  recheck patch resource (ok annotation_time) (ok update_time) w =
      if after update_time annotation_time
      then patch (meta resource).namespace (meta resource).name
          (remove_annotation annotation_processed) w
      else (ok tt, w)

  module _ (hl : HistoryLimiter (World S)) (th : TtlHandler (World S)) where
    -- both handlers for one run, as it was listed
    unfoldable pub collect_handlers : Object → World S → World S
    unfolding process_event process_ttl_event
    collect_handlers resource w =
        unless_error (λ w'. (process_ttl_event p th resource w').1) (process_event p hl resource w)

    -- one round of the loop, for a run that passes the test of the loop
    unfoldable pub collect_run :
        (String → String → Patch → Exec (World S) (Unit {0})) → String → Object → World S → World S
    unfolding recheck collect_handlers find
    collect_run patch update_time resource w =
        let mark = at (meta resource).annotations annotation_processed in
        if mark == ""
        then collect_handlers resource w
        else unless_error (collect_handlers resource)
            (recheck patch resource (p.parse_rfc3339 mark) (p.parse_rfc3339 update_time) w)

  -- the loop of `cleanupPRs`
  unfoldable pub collect_pipeline_runs : String → List PipelineRun → World S → World S
  unfolding collect_run read_clock call
  collect_pipeline_runs update_time [] w = w
  collect_pipeline_runs update_time (pr ∷ prs) w = collect_pipeline_runs update_time prs (
      if is_some pr.status.completion_time
      then collect_run (record { resource_fn = pr_history_funcs p })
          (record { clock = read_clock p; resource_fn = pr_ttl_funcs p })
          (λ namespace name patch. call (p.pipeline_runs.patch namespace name patch)) update_time
          (pipeline_run pr) w
      else w)

  -- the loop of `cleanupTRs`
  unfoldable pub collect_task_runs : String → List TaskRun → World S → World S
  unfolding collect_run read_clock call
  collect_task_runs update_time [] w = w
  collect_task_runs update_time (tr ∷ trs) w = collect_task_runs update_time trs (
      if is_some tr.status.completion_time && not (p.has_pipeline_run_owner_reference tr)
      then collect_run (record { resource_fn = tr_history_funcs p })
          (record { clock = read_clock p; resource_fn = tr_ttl_funcs p })
          (λ namespace name patch. call (p.task_runs.patch namespace name patch)) update_time
          (task_run tr) w
      else w)

  -- `cleanupPRs`
  unfoldable pub cleanup_prs : String → String → Exec (World S) (Unit {0})
  unfolding collect_pipeline_runs call
  cleanup_prs namespace update_time w =
      continue (λ prs w'. (ok tt, collect_pipeline_runs update_time prs w'))
        (call (p.pipeline_runs.list namespace "") w)

  -- `cleanupTRs`
  unfoldable pub cleanup_trs : String → String → Exec (World S) (Unit {0})
  unfolding collect_task_runs call
  cleanup_trs namespace update_time w =
      continue (λ trs w'. (ok tt, collect_task_runs update_time trs w'))
        (call (p.task_runs.list namespace "") w)

  -- what a worker does with one namespace: the TaskRuns only if the PipelineRuns could be listed
  unfoldable pub collect_namespace : String → String → World S → World S
  unfolding cleanup_prs cleanup_trs
  collect_namespace update_time namespace w =
      unless_error (λ w'. (cleanup_trs namespace update_time w').1)
        (cleanup_prs namespace update_time w)
