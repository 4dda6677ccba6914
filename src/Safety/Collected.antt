-- ===== src/Safety/Collected.antt =====
-- The history limit of the configuration, through the garbage collection of a namespace as a
-- whole.
use mathlib.Core.List.{◌++◌}
use tektoncd_pruner.Prelude.{
  String, ℕ, ◌≤◌, pos, Bool, true, false, Option, none, some, List, [], ◌∷◌, ◌≡◌, refl, ap, sym,
  ◌∙◌, subst, arith, keep, length, is_some, ◌==◌, if◌then◌else◌,
}
use tektoncd_pruner.Go.Dict.{get, at}
use tektoncd_pruner.Go.Exec.{Exec, Result, ok, err}
use tektoncd_pruner.Kube.Object.{Object, PipelineRun, pipeline_run, meta}
use tektoncd_pruner.Kube.Api.{Platform, Patch}
use tektoncd_pruner.Config.Spec.{level_resource, annotation_processed}
use tektoncd_pruner.World.{World, call}
use tektoncd_pruner.History.Event.{is_processed, process_event}
use tektoncd_pruner.History.Enforcement.{Gone}
use tektoncd_pruner.Ttl.Event.{process_ttl_event}
use tektoncd_pruner.Runs.PipelineRuns.{pr_delete}
use tektoncd_pruner.Runs.States.{pr_limiter, pr_handler}
use tektoncd_pruner.Runs.Enforced.{Outcome, setting_of, IsPipelineServer, level_of}
use tektoncd_pruner.Pruner.Collect.{
  unless_error, collect_handlers, collect_run, collect_pipeline_runs, cleanup_prs, cleanup_trs,
  collect_namespace,
}
use tektoncd_pruner.Safety.View.{Invariant}
use tektoncd_pruner.Safety.Reconcilers.{IsCluster, pr_ttl-Spares}
use tektoncd_pruner.Safety.Enforced.{
  runs_of, within_limit, IsNew, IsLimited, IsLimited-of_store, process_event_step,
  limited_after_event,
}
use tektoncd_pruner.Safety.OfProcess.{all_hold}
use tektoncd_pruner.Safety.Settings.{settings, settings-IsCluster}
use tektoncd_pruner.Safety.Collections.{collect_pipeline_runs-Spares, cleanup_trs-Spares}
use tektoncd_pruner.Safety.Cleaned.{cleanup_succeeds}

empty_when_missing :
    (mark : Option String)
    → is_some mark ≡ false
    → (elim mark [ none ↦ "" | some v ↦ v ] == "") ≡ true
empty_when_missing none h = refl
empty_when_missing (some v) h = absurd (ground (arith, h))

unmarked_when_new :
    (o : Object)
    → is_processed o ≡ false
    → (at (meta o).annotations annotation_processed == "") ≡ true
unfolding is_processed
unmarked_when_new o new = empty_when_missing (get (meta o).annotations annotation_processed) new

module _ {S : Type 0} (p : Platform S) (prs : S → List PipelineRun)
    (selects : String → String → PipelineRun → Bool) (laws : IsPipelineServer p prs selects)
    (succeeds : (namespace name : String) (w : World S)
      → Gone p (pr_limiter p) (pr_delete p namespace name w).0) where
  module _ (outcome : Outcome) (pr : PipelineRun) (n : ℕ)
      (cluster : IsCluster
        (within_limit p prs selects laws outcome pr.metadata.namespace n)
        p) where
    abbrev inv : Invariant S
    inv = within_limit p prs selects laws outcome pr.metadata.namespace n

    abbrev o : Object
    o = pipeline_run pr

    event_succeeds :
        (v : World S)
        → IsNew p prs selects laws outcome pr
        → IsLimited p prs selects laws outcome pr n v
        → (process_event p (pr_limiter p) o v).0 ≡ ok tt
    event_succeeds v new h =
        ap (λ q. q.0) (process_event_step p prs selects laws outcome pr v new)
        ∙ cleanup_succeeds p prs selects laws succeeds outcome pr v h.wide

    after_handlers :
        (q : Result (Unit {0}) × World S)
        → q.0 ≡ ok tt
        → inv.holds q.1
        → inv.holds (unless_error p (λ v. (process_ttl_event p (pr_handler p) o v).1) q)
    after_handlers (ok _, v) h within = (pr_ttl-Spares inv p cluster o tt v).stays within
    after_handlers (err e, v) h within = absurd (ground (arith, h))

    -- One round of the loop, for a new run of the outcome, whatever was there before.
    collect_new_limits :
        (patch : String → String → Patch → Exec (World S) (Unit {0})) (update_time : String)
        (v : World S)
        → IsNew p prs selects laws outcome pr
        → IsLimited p prs selects laws outcome pr n v
        → inv.holds (collect_run p (pr_limiter p) (pr_handler p) patch update_time o v)
    unfolding collect_run collect_handlers
    collect_new_limits patch update_time v new h = rw (unmarked_when_new o new.unprocessed) (
        after_handlers (process_event p (pr_limiter p) o v) (event_succeeds v new h) (
          limited_after_event p prs selects laws outcome pr n cluster v new h.wide h.limited
            (event_succeeds v new h)))

    loop_keeps :
        (update_time : String) (rs : List PipelineRun) (v : World S)
        → inv.holds v
        → inv.holds (collect_pipeline_runs p update_time rs v)
    loop_keeps update_time rs v =
        (collect_pipeline_runs-Spares inv p cluster update_time rs v (all_hold (λ r. tt) rs)).stays

    loop_keeps_settings :
        (update_time : String) (rs : List PipelineRun) (v : World S)
        → IsLimited p prs selects laws outcome pr n v
        → IsLimited p prs selects laws outcome pr n (collect_pipeline_runs p update_time rs v)
    loop_keeps_settings update_time rs v h =
        let same : (collect_pipeline_runs p update_time rs v).store ≡ v.store =
          (collect_pipeline_runs-Spares (settings p v.store) p (settings-IsCluster p v.store)
              update_time rs v (all_hold (λ r. tt) rs)).stays
            refl in
        IsLimited-of_store p prs selects laws outcome pr n same h

    loop_append :
        (update_time : String) (front back : List PipelineRun) (v : World S)
        → collect_pipeline_runs p update_time (front ++ back) v
          ≡ collect_pipeline_runs p update_time back (collect_pipeline_runs p update_time front v)
    unfolding collect_pipeline_runs
    loop_append update_time [] back v = refl
    loop_append update_time (r ∷ front) back v = loop_append update_time front back _

    loop_head :
        (update_time : String) (back : List PipelineRun) (v : World S)
        → is_some pr.status.completion_time ≡ true
        → IsNew p prs selects laws outcome pr
        → IsLimited p prs selects laws outcome pr n v
        → inv.holds (collect_pipeline_runs p update_time (pr ∷ back) v)
    unfolding collect_pipeline_runs
    loop_head update_time back v ended new h =
        let patch : String → String → Patch → Exec (World S) (Unit {0}) =
          λ namespace name patch. call (p.pipeline_runs.patch namespace name patch) in
        let first : World S = collect_run p (pr_limiter p) (pr_handler p) patch update_time o v in
        subst (λ b. inv.holds (collect_pipeline_runs p update_time back (if b then first else v)))
          (sym ended)
          (loop_keeps update_time back first (collect_new_limits patch update_time v new h))

    loop_limits :
        (update_time : String) (front back : List PipelineRun) (v : World S)
        → is_some pr.status.completion_time ≡ true
        → IsNew p prs selects laws outcome pr
        → IsLimited p prs selects laws outcome pr n v
        → inv.holds (collect_pipeline_runs p update_time (front ++ pr ∷ back) v)
    loop_limits update_time front back v ended new h =
        subst inv.holds (sym (loop_append update_time front (pr ∷ back) v)) (
          loop_head update_time back (collect_pipeline_runs p update_time front v) ended new
            (loop_keeps_settings update_time front v h))

    listed_are_collected :
        (update_time : String) (w : World S)
        → cleanup_prs p pr.metadata.namespace update_time w ≡ (
          ok tt,
          collect_pipeline_runs p update_time
              (keep (selects pr.metadata.namespace "") (prs w.cluster))
              w,
        )
    unfolding cleanup_prs call
    listed_are_collected update_time w =
        rw (laws.list pr.metadata.namespace "" w.cluster, cleanup_prs, call) refl

    -- With an API server that keeps to `IsPipelineServer`, whose deletions succeed or find no run, and
    -- whose calls all keep the number of the completed runs of an outcome, success or failure, in a
    -- namespace at `n` or less where it is so: where the store enforces another level than "resource"
    -- for a new PipelineRun of that outcome with a time of completion, and its setting for the run
    -- limits these to `n`, a garbage collection that lists that run leaves at most `n` of them in the
    -- namespace. It may meet any errors of other calls.
    pub collection_enforces_limit :
        (update_time : String) (w : World S) (front back : List PipelineRun)
        → keep (selects pr.metadata.namespace "") (prs w.cluster) ≡ front ++ pr ∷ back
        → is_some pr.status.completion_time ≡ true
        → IsNew p prs selects laws outcome pr
        → (level_of p prs selects laws pr w == level_resource) ≡ false
        → setting_of p prs selects laws pr w outcome ≡ some (pos n)
        → length (
            runs_of p prs selects laws outcome pr.metadata.namespace
              (collect_namespace p update_time pr.metadata.namespace w).cluster)
          ≤ n
    unfolding collect_namespace
    collection_enforces_limit update_time w front back listed ended new wide limited =
        let q = cleanup_prs p pr.metadata.namespace update_time w in
        subst
          (λ q.
            inv.holds
              (unless_error p (λ v. (cleanup_trs p pr.metadata.namespace update_time v).1) q))
          (sym (listed_are_collected update_time w))
          ((cleanup_trs-Spares inv p cluster pr.metadata.namespace update_time tt _).stays (
            subst (λ rs. inv.holds (collect_pipeline_runs p update_time rs w)) (sym listed)
              (loop_limits update_time front back w ended new
                (record { wide = wide; limited = limited }))))
