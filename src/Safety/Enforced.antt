-- ===== src/Safety/Enforced.antt =====
-- The history limit of the configuration, through `ReconcileKind` of
-- pipelinerun/reconciler.go as a whole.
use tektoncd_pruner.Prelude.{
  String, ℕ, ◌≤◌, pos, Bool, true, false, some, List, ◌≡◌, refl, ap, sym, ◌∙◌, subst, arith, keep,
  length, is_some, ◌==◌, Bool-cases, inl, inr,
}
use tektoncd_pruner.Go.Exec.{Exec, Result, ok, err}
use tektoncd_pruner.Kube.Object.{Object, ObjectMeta, PipelineRun, pipeline_run}
use tektoncd_pruner.Kube.Api.{Platform}
use tektoncd_pruner.Config.Spec.{kind_pipeline_run, level_resource}
use tektoncd_pruner.Metrics.Names.{resource_type_pipeline_run}
use tektoncd_pruner.Metrics.{Timer, resource_attributes}
use tektoncd_pruner.World.{World, read_clock}
use tektoncd_pruner.History.Event.{is_processed, mark_as_processed, cleanup_of, process_event}
use tektoncd_pruner.Runs.PipelineRuns.{pr_is_completed, pr_is_successful, pr_is_failed}
use tektoncd_pruner.Runs.Reconcile.{
  start_timer, timed, after_history, reconcile_run, reconcile_pipeline_run,
}
use tektoncd_pruner.Runs.States.{pr_limiter, pr_handler}
use tektoncd_pruner.Runs.Order.{
  after_timers, ttl_stage, history_stage, reconcile_run_step, history_stage_result,
}
use tektoncd_pruner.Runs.Enforced.{
  Outcome, success, failure, is_counted, cleanup_for, IsPipelineServer, selects_object, all_objects,
  level_of, setting_of, limit_count, limit_is_enforced,
}
use tektoncd_pruner.Config.Level.{get_pipeline_enforced_config_level}
use tektoncd_pruner.Config.Helper.{get_resource_selectors}
use tektoncd_pruner.History.Bounds.{name_for}
use tektoncd_pruner.Safety.View.{Invariant, tells_ttl_time}
use tektoncd_pruner.Safety.OnCluster.{on_cluster, cluster-Finishing}
use tektoncd_pruner.Safety.Limiter.{mark_as_processed-Spares}
use tektoncd_pruner.Safety.Reconcilers.{
  IsCluster, Finishing, pr_keeper, pr_lister, pr_ttl-Spares, timed-Spares, after_history-Spares,
}

module _ {S : Type 0} (p : Platform S) (prs : S → List PipelineRun)
    (selects : String → String → PipelineRun → Bool) (laws : IsPipelineServer p prs selects) where
  -- The completed runs of an outcome in a namespace.
  abbrev pub runs_of : Outcome → String → S → List Object
  runs_of outcome namespace s =
      keep (is_counted p prs selects laws outcome)
        (keep (selects_object selects namespace "") (all_objects p prs selects laws s))

  -- At most `n` of them are there; any run may be deleted.
  abbrev pub within_limit : Outcome → String → ℕ → Invariant S
  within_limit outcome namespace n =
      on_cluster (λ s. length (runs_of outcome namespace s) ≤ n) (λ kind namespace name. Unit)
        (λ namespace. Unit)

  abbrev HasEnded : Outcome → PipelineRun → Type 0
  HasEnded success pr = pr_is_successful p (pipeline_run pr) ≡ true
  HasEnded failure pr = pr_is_failed p (pipeline_run pr) ≡ true

  -- A completed run that the history limiter has yet to deal with, and its outcome.
  pub record IsNew (outcome : Outcome) (pr : PipelineRun) : Type 0 where
    pub live : is_some pr.metadata.deletion_timestamp ≡ false
    pub unprocessed : is_processed (pipeline_run pr) ≡ false
    pub completed : pr_is_completed p (pipeline_run pr) ≡ true
    pub ended : HasEnded outcome pr

  -- Another level than "resource", at which the setting for the run limits the runs of the outcome.
  pub record IsLimited (outcome : Outcome) (pr : PipelineRun) (n : ℕ) (w : World S) : Type 0 where
    pub wide : (level_of p prs selects laws pr w == level_resource) ≡ false
    pub limited : setting_of p prs selects laws pr w outcome ≡ some (pos n)

  -- Nothing but the configuration matters to it.
  pub IsLimited-of_store :
      (outcome : Outcome) (pr : PipelineRun) (n : ℕ) {v w : World S}
      → v.store ≡ w.store
      → IsLimited outcome pr n w
      → IsLimited outcome pr n v
  IsLimited-of_store outcome pr n same h =
      let name = name_for p (pr_limiter p) (pipeline_run pr) in
      let selectors = get_resource_selectors pr.metadata in
      record {
        wide =
            ap
              (λ c.
                get_pipeline_enforced_config_level c.global_config pr.metadata.namespace name
                  selectors
                == level_resource)
              same
            ∙ h.wide;
        limited =
            ap (λ c. (limit_count outcome c pr.metadata.namespace name selectors).0) same
            ∙ h.limited;
      }

  failed_not_successful :
      (pr : PipelineRun)
      → pr_is_failed p (pipeline_run pr) ≡ true
      → pr_is_successful p (pipeline_run pr) ≡ false
  unfolding pr_is_failed
  failed_not_successful pr h = elim (Bool-cases (pr_is_successful p (pipeline_run pr))) [
    | inl won ↦ absurd (ground (arith, h, won))
    | inr lost ↦ lost
  ]

  cleanup_of_step :
      (outcome : Outcome) (pr : PipelineRun) (w : World S)
      → HasEnded outcome pr
      → cleanup_of p (pr_limiter p) (pipeline_run pr) w
        ≡ cleanup_for p prs selects laws outcome (pipeline_run pr) w
  unfolding cleanup_of
  cleanup_of_step success pr w h = rw h refl
  cleanup_of_step failure pr w h = rw (failed_not_successful pr h) (rw h refl)

  pub process_event_step :
      (outcome : Outcome) (pr : PipelineRun) (w : World S)
      → IsNew outcome pr
      → process_event p (pr_limiter p) (pipeline_run pr) w ≡ (
        (cleanup_for p prs selects laws outcome (pipeline_run pr) w).0,
        mark_as_processed p
            (pr_limiter p)
            (pipeline_run pr)
            (cleanup_for p prs selects laws outcome (pipeline_run pr) w).1,
      )
  unfolding process_event
  process_event_step outcome pr w h = rw h.live (
      rw h.unprocessed (
        rw h.completed (
          ap (λ q. (q.0, mark_as_processed p (pr_limiter p) (pipeline_run pr) q.1))
            (cleanup_of_step outcome pr w h.ended))))

  after_history_ok :
      (type : String) (m : ObjectMeta) (t : Timer) (ttl : Exec (World S) (Unit {0}))
      (q : Result (Unit {0}) × World S)
      → (after_history p type m t ttl q).0 ≡ ok tt
      → q.0 ≡ ok tt
  unfolding after_history
  after_history_ok type m t ttl (ok _, w) h = refl
  after_history_ok type m t ttl (err e, w) h = absurd (ground arith)

  module _ (outcome : Outcome) (pr : PipelineRun) (n : ℕ)
      (cluster : IsCluster (within_limit outcome pr.metadata.namespace n) p) where
    abbrev inv : Invariant S
    inv = within_limit outcome pr.metadata.namespace n

    finishing : Finishing inv p cluster
    finishing =
        cluster-Finishing (λ s. length (runs_of outcome pr.metadata.namespace s) ≤ n) inv.safe
          inv.allows p cluster

    abbrev o : Object
    o = pipeline_run pr

    -- A history limiter that returns no error leaves at most `n` runs.
    pub limited_after_event :
        (v : World S)
        → IsNew outcome pr
        → (level_of p prs selects laws pr v == level_resource) ≡ false
        → setting_of p prs selects laws pr v outcome ≡ some (pos n)
        → (process_event p (pr_limiter p) o v).0 ≡ ok tt
        → inv.holds (process_event p (pr_limiter p) o v).1
    limited_after_event v new wide limited done =
        let cleanup = cleanup_for p prs selects laws outcome o v in
        let step = process_event_step outcome pr v new in
        let cleaned : cleanup ≡ (ok tt, cleanup.1) =
          ap (λ r. (r, cleanup.1)) (sym (ap (λ q. q.0) step) ∙ done) in
        subst (λ q. inv.holds q.1) (sym step)
          ((mark_as_processed-Spares inv p cluster.quiet (pr_limiter p) kind_pipeline_run
              (pr_keeper inv p cluster) (pr_lister inv p cluster) o cleanup.1 tt).stays
            (limit_is_enforced p prs selects laws pr v outcome n wide limited cleaned))

    limited_after_stage :
        (w : World S)
        → inv.holds
            (process_event p (pr_limiter p) o (after_timers p (pr_limiter p) (pr_handler p) w)).1
        → inv.holds
            (history_stage p
              (pr_limiter p)
              (pr_handler p)
              resource_type_pipeline_run
              o
              (start_timer p
                (resource_attributes resource_type_pipeline_run pr.metadata.namespace)
                w).1).1
    unfolding timed start_timer
    limited_after_stage w h =
        let v : World S =
          (process_event p (pr_limiter p) o (after_timers p (pr_limiter p) (pr_handler p) w)).1 in
        (cluster.quiet.clock v).stays h

    reconcile_step :
        (w : World S)
        → reconcile_pipeline_run p (pr_limiter p) (pr_handler p) pr w
          ≡ reconcile_run p (pr_limiter p) (pr_handler p) resource_type_pipeline_run o w
    unfolding reconcile_pipeline_run
    reconcile_step w = refl

    -- With an API server that keeps to `IsPipelineServer`, and whose calls all keep the number of the
    -- completed runs of an outcome, success or failure, in the namespace at `n` or less where it is
    -- so: where the store enforces another level than "resource" for a new PipelineRun of that outcome
    -- and its setting for the run limits these to `n`, a reconciliation that returns no error leaves
    -- at most `n` of them in the namespace.
    pub reconciliation_enforces_limit :
        (w w' : World S)
        → IsNew outcome pr
        → (level_of p prs selects laws pr w == level_resource) ≡ false
        → setting_of p prs selects laws pr w outcome ≡ some (pos n)
        → reconcile_pipeline_run p (pr_limiter p) (pr_handler p) pr w ≡ (ok tt, w')
        → length (runs_of outcome pr.metadata.namespace w'.cluster) ≤ n
    unfolding read_clock
    reconciliation_enforces_limit w w' new wide limited h =
        let type = resource_type_pipeline_run in
        let m : ObjectMeta = pr.metadata in
        let t = (start_timer p (resource_attributes type m.namespace) w).0 in
        let ttl = ttl_stage p (pr_limiter p) (pr_handler p) (pr_handler p) type o in
        let q =
          history_stage p (pr_limiter p) (pr_handler p) type o
            (start_timer p (resource_attributes type m.namespace) w).1 in
        let v : World S = after_timers p (pr_limiter p) (pr_handler p) w in
        let whole : after_history p type m t ttl q ≡ (ok tt, w') =
          sym (reconcile_run_step p (pr_limiter p) (pr_handler p) (pr_handler p) type o w)
          ∙ sym (reconcile_step w)
          ∙ h in
        let done : (process_event p (pr_limiter p) o v).0 ≡ ok tt =
          sym (history_stage_result p (pr_limiter p) (pr_handler p) type o w)
          ∙ after_history_ok type m t ttl q (ap (λ r. r.0) whole) in
        subst (λ r. inv.holds r.1) whole
          ((after_history-Spares inv p cluster finishing type m t ttl q (
              timed-Spares inv p cluster _ _ _ tells_ttl_time
                (pr_ttl-Spares inv p cluster o tt))).stays
            (limited_after_stage w (limited_after_event v new wide limited done)))
