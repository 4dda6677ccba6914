-- ===== src/Safety/Cleaned.antt =====
-- The cleanups of the history limiter for PipelineRuns where the deletions succeed.
use tektoncd_pruner.Prelude.{
  String, ℕ, Bool, false, Option, none, some, List, ◌≡◌, refl, ap, ◌∙◌, ◌==◌,
}
use tektoncd_pruner.Go.Dict.{Dict}
use tektoncd_pruner.Go.Exec.{ok}
use tektoncd_pruner.Kube.Object.{Object, PipelineRun, pipeline_run, meta}
use tektoncd_pruner.Kube.Api.{Platform}
use tektoncd_pruner.Config.Spec.{level_resource}
use tektoncd_pruner.Config.Select.{Found}
use tektoncd_pruner.World.{World}
use tektoncd_pruner.History.Limit.{choose_limit, effective_limit}
use tektoncd_pruner.History.Cleanup.{limit_found, prune_to}
use tektoncd_pruner.History.Enforcement.{Gone, prune_to_step}
use tektoncd_pruner.History.Bounds.{
  level_for, configured_for, do_resource_cleanup_step, delete_selected_succeeds,
}
use tektoncd_pruner.Runs.PipelineRuns.{pr_delete}
use tektoncd_pruner.Runs.States.{pr_limiter}
use tektoncd_pruner.Runs.Enforced.{
  Outcome, limit_annotation, limit_count, is_counted, cleanup_for, cleanup_step, IsPipelineServer,
  selects_object, all_objects, level_of, pr_limiter-IsRunServer,
}

choose_limit_wide :
    (level : String) (annotations : Dict String) (annotation : String) (configured : Found)
    → (level == level_resource) ≡ false
    → choose_limit level annotations annotation configured ≡ ok configured
unfolding choose_limit
choose_limit_wide level annotations annotation configured wide = rw wide refl

module _ {S : Type 0} (p : Platform S) (prs : S → List PipelineRun)
    (selects : String → String → PipelineRun → Bool) (laws : IsPipelineServer p prs selects)
    (succeeds : (namespace name : String) (w : World S)
      → Gone p (pr_limiter p) (pr_delete p namespace name w).0) where
  prune_to_succeeds :
      (namespace selector : String) (passes : Object → Bool) (limit : Option ℕ) (w : World S)
      → (prune_to p (pr_limiter p) namespace selector passes limit w).0 ≡ ok tt
  prune_to_succeeds namespace selector passes none w = unfold prune_to in refl
  prune_to_succeeds namespace selector passes (some limit) w =
      ap (λ q. q.0)
        (prune_to_step p (pr_limiter p) (all_objects p prs selects laws) (selects_object selects)
          (pr_limiter-IsRunServer p prs selects laws) namespace selector passes limit w)
      ∙ delete_selected_succeeds p (pr_limiter p) succeeds _ w

  limit_found_succeeds :
      (o : Object) (level : String) (passes : Object → Bool) (found : Found) (w : World S)
      → (limit_found p (pr_limiter p) o level passes (ok found) w).0 ≡ ok tt
  limit_found_succeeds o level passes (limit, by) w =
      prune_to_succeeds (meta o).namespace _ passes (effective_limit limit) w

  -- With deletions that succeed, a cleanup at another level than "resource" returns no error.
  pub cleanup_succeeds :
      (outcome : Outcome) (pr : PipelineRun) (w : World S)
      → (level_of p prs selects laws pr w == level_resource) ≡ false
      → (cleanup_for p prs selects laws outcome (pipeline_run pr) w).0 ≡ ok tt
  cleanup_succeeds outcome pr w wide =
      let o : Object = pipeline_run pr in
      let level = level_for p (pr_limiter p) o w in
      let configured =
        configured_for p (pr_limiter p) o
          (λ namespace name selector v. limit_count outcome v.store namespace name selector) w in
      let passes = is_counted p prs selects laws outcome in
      ap (λ q. q.0)
        (cleanup_step p prs selects laws pr w outcome
          ∙ do_resource_cleanup_step p (pr_limiter p) o (limit_annotation outcome)
              (λ namespace name selector v. limit_count outcome v.store namespace name selector)
              passes w)
      ∙ ap (λ r. (limit_found p (pr_limiter p) o level passes r w).0)
          (choose_limit_wide level (meta o).annotations (limit_annotation outcome) configured wide)
      ∙ limit_found_succeeds o level passes configured w
