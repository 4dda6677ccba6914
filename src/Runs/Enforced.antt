-- ===== src/Runs/Enforced.antt =====
-- The history limit of the configuration and the PipelineRuns of a namespace, through the store, the
-- resource functions of the reconciler and the history limiter.
use mathlib.Core.List.{map}
use tektoncd_pruner.Prelude.{
  String, ℕ, ℤ, ◌≤◌, pos, Bool, false, not, Option, some, List, [], ◌∷◌, ◌≡◌, refl, ap, sym, ◌∙◌,
  keep, length, ◌==◌, Bool-cases, inl, inr,
}
use tektoncd_pruner.Go.Exec.{Exec, ok}
use tektoncd_pruner.Kube.Object.{Object, PipelineRun, pipeline_run, task_run, other_object}
use tektoncd_pruner.Kube.Api.{Platform}
use tektoncd_pruner.Config.Spec.{
  SelectorSpec, EnforcedConfigLevel, resource_pipeline_run, level_global, level_resource,
  PrunerFieldType, successful_limit, failed_limit, annotation_successful_limit,
  annotation_failed_limit,
}
use tektoncd_pruner.Config.Level.{get_pipeline_enforced_config_level}
use tektoncd_pruner.Config.Field.{field_with_fallback, get_resource_field_data, global_level}
use tektoncd_pruner.Config.Store.{
  PrunerConfigStore, get_pipeline_success_history_limit_count,
  get_pipeline_failed_history_limit_count,
}
use tektoncd_pruner.Config.Helper.{get_resource_selectors}
use tektoncd_pruner.Config.Select.{Found}
use tektoncd_pruner.World.{World}
use tektoncd_pruner.History.Cleanup.{
  is_successful_resource, is_failed_resource, do_successful_resource_cleanup,
  do_failed_resource_cleanup, do_resource_cleanup,
}
use tektoncd_pruner.History.Enforcement.{Gone, IsRunServer, has_key}
use tektoncd_pruner.History.Bounds.{name_for, cleanup_enforces_namespace_limit}
use tektoncd_pruner.Runs.PipelineRuns.{pr_list, pr_delete}
use tektoncd_pruner.Runs.States.{pr_limiter}

-- The two outcomes of a run that a history limit counts.
pub data Outcome : Type 0 where
  success failure : Outcome

abbrev pub limit_field : Outcome → PrunerFieldType
limit_field success = successful_limit
limit_field failure = failed_limit

abbrev pub limit_annotation : Outcome → String
limit_annotation success = annotation_successful_limit
limit_annotation failure = annotation_failed_limit

abbrev pub limit_count : Outcome → PrunerConfigStore → String → String → SelectorSpec → Found
limit_count success = get_pipeline_success_history_limit_count
limit_count failure = get_pipeline_failed_history_limit_count

abbrev pub has_run_key : String → String → PipelineRun → Bool
has_run_key namespace name pr = has_key namespace name (pipeline_run pr)

abbrev pub selects_object : (String → String → PipelineRun → Bool) → String → String → Object → Bool
selects_object selects namespace selector (pipeline_run pr) = selects namespace selector pr
selects_object selects namespace selector (task_run tr) = false
selects_object selects namespace selector (other_object m) = false

pub keep-map :
    (q : Object → Bool) (prs : List PipelineRun)
    → keep q (map pipeline_run prs) ≡ map pipeline_run (keep (λ pr. q (pipeline_run pr)) prs)
keep-map q [] = refl
keep-map q (pr ∷ prs) = elim (Bool-cases (q (pipeline_run pr))) [
  | inl here ↦ rw here (ap (◌∷◌ (pipeline_run pr)) (keep-map q prs))
  | inr away ↦ rw away (keep-map q prs)
]

module _ {S : Type 0} (p : Platform S) where
  -- What the API server promises of its PipelineRuns.
  pub record IsPipelineServer (prs : S → List PipelineRun)
      (selects : String → String → PipelineRun → Bool) : Type 0 where
    pub clock : (s : S) → prs (p.now s).1 ≡ prs s
    pub list :
        (namespace selector : String) (s : S)
        → p.pipeline_runs.list namespace selector s
          ≡ (ok (keep (selects namespace selector) (prs s)), s)
    pub delete :
        (namespace name : String) (s : S)
        → Gone p (pr_limiter p) (p.pipeline_runs.delete namespace name s).0
        → prs (p.pipeline_runs.delete namespace name s).1
          ≡ keep (λ pr. not (has_run_key namespace name pr)) (prs s)

  module _ (prs : S → List PipelineRun) (selects : String → String → PipelineRun → Bool)
      (laws : IsPipelineServer prs selects) where
    abbrev pub all_objects : S → List Object
    all_objects s = map pipeline_run (prs s)

    pr_list_lawful :
        (namespace selector : String) (w : World S)
        → pr_list p namespace selector w
          ≡ (ok (keep (selects_object selects namespace selector) (all_objects w.cluster)), w)
    unfolding pr_list
    pr_list_lawful namespace selector w = rw (laws.list namespace selector w.cluster) (
        ap (λ l. (ok l, w))
          (sym (keep-map (selects_object selects namespace selector) (prs w.cluster))))

    pr_delete_lawful :
        (namespace name : String) (w : World S)
        → Gone p (pr_limiter p) (pr_delete p namespace name w).0
        → all_objects (pr_delete p namespace name w).1.cluster
          ≡ keep (λ o. not (has_key namespace name o)) (all_objects w.cluster)
    unfolding pr_delete
    pr_delete_lawful namespace name w gone =
        ap (map pipeline_run) (laws.delete namespace name w.cluster gone)
        ∙ sym (keep-map (λ o. not (has_key namespace name o)) (prs w.cluster))

    -- The resource functions of the reconciler keep the promises that the history limiter relies on.
    pub pr_limiter-IsRunServer : IsRunServer p (pr_limiter p) all_objects (selects_object selects)
    pr_limiter-IsRunServer = record {
      clock = λ s. ap (map pipeline_run) (laws.clock s);
      list = pr_list_lawful;
      delete = pr_delete_lawful;
    }

    limit_step :
        (outcome : Outcome) (store : PrunerConfigStore) (namespace name : String)
        (selector : SelectorSpec)
        → limit_count outcome store namespace name selector
          ≡ get_resource_field_data store.global_config namespace name selector
              resource_pipeline_run
              (limit_field outcome)
              (get_pipeline_enforced_config_level store.global_config namespace name selector)
    unfolding get_pipeline_success_history_limit_count get_pipeline_failed_history_limit_count
    limit_step success store namespace name selector = refl
    limit_step failure store namespace name selector = refl

    field_at_global :
        (field : PrunerFieldType) (store : PrunerConfigStore) (namespace name : String)
        (selector : SelectorSpec)
        → (get_resource_field_data store.global_config namespace name selector resource_pipeline_run
            field level_global).0
          ≡ field_with_fallback store.global_config.config field
    unfolding get_resource_field_data global_level
    field_at_global field store namespace name selector = refl

    limit_at_global :
        (outcome : Outcome) (store : PrunerConfigStore) (namespace name : String)
        (selector : SelectorSpec)
        → get_pipeline_enforced_config_level store.global_config namespace name selector
          ≡ level_global
        → (limit_count outcome store namespace name selector).0
          ≡ field_with_fallback store.global_config.config (limit_field outcome)
    limit_at_global outcome store namespace name selector h =
        ap (λ f. f.0) (limit_step outcome store namespace name selector)
        ∙ ap
            (λ l.
              (get_resource_field_data store.global_config namespace name selector
                resource_pipeline_run (limit_field outcome) l).0)
            h
        ∙ field_at_global (limit_field outcome) store namespace name selector

    -- The completed runs of an outcome, and the cleanup of these.
    abbrev pub is_counted : Outcome → Object → Bool
    is_counted success = is_successful_resource p (pr_limiter p)
    is_counted failure = is_failed_resource p (pr_limiter p)

    abbrev pub cleanup_for : Outcome → Object → Exec (World S) (Unit {0})
    cleanup_for success = do_successful_resource_cleanup p (pr_limiter p)
    cleanup_for failure = do_failed_resource_cleanup p (pr_limiter p)

    module _ (pr : PipelineRun) (w : World S) where
      -- The level that the store enforces for the run.
      abbrev pub level_of : EnforcedConfigLevel
      level_of =
          get_pipeline_enforced_config_level w.store.global_config pr.metadata.namespace
            (name_for p (pr_limiter p) (pipeline_run pr)) (get_resource_selectors pr.metadata)

      pub cleanup_step :
          (outcome : Outcome)
          → cleanup_for outcome (pipeline_run pr) w
            ≡ do_resource_cleanup p
                (pr_limiter p)
                (pipeline_run pr)
                (limit_annotation outcome)
                (λ namespace name selector v. limit_count outcome v.store namespace name selector)
                (is_counted outcome)
                w
      unfolding do_successful_resource_cleanup do_failed_resource_cleanup
      cleanup_step success = refl
      cleanup_step failure = refl

      -- The setting of the store for the runs of an outcome.
      abbrev pub setting_of : Outcome → Option ℤ
      setting_of outcome =
          (limit_count outcome w.store pr.metadata.namespace
            (name_for p (pr_limiter p) (pipeline_run pr)) (get_resource_selectors pr.metadata)).0

      -- With an API server that keeps to `IsPipelineServer`: where the store enforces another level
      -- than "resource" for a PipelineRun and its setting limits the runs of an outcome, success or
      -- failure, to `n`, a cleanup of the runs of that outcome that returns no error leaves at most
      -- `n` of them in the namespace.
      pub limit_is_enforced :
          (outcome : Outcome) (n : ℕ) {w' : World S}
          → (level_of == level_resource) ≡ false
          → setting_of outcome ≡ some (pos n)
          → cleanup_for outcome (pipeline_run pr) w ≡ (ok tt, w')
          → length (
              keep
                (is_counted outcome)
                (keep (selects_object selects pr.metadata.namespace "") (all_objects w'.cluster)))
            ≤ n
      limit_is_enforced outcome n wide limited h =
          cleanup_enforces_namespace_limit p (pr_limiter p) all_objects (selects_object selects)
            pr_limiter-IsRunServer (pipeline_run pr) (is_counted outcome) w
            (limit_annotation outcome)
            (λ namespace name selector v. limit_count outcome v.store namespace name selector) n
            wide limited (sym (cleanup_step outcome) ∙ h)

      -- At the level "global" the setting is that of the root, by the limit of the outcome or else by
      -- `historyLimit`.
      pub setting_at_global :
          (outcome : Outcome)
          → level_of ≡ level_global
          → setting_of outcome
            ≡ field_with_fallback w.store.global_config.config (limit_field outcome)
      setting_at_global outcome global =
          limit_at_global outcome w.store pr.metadata.namespace
            (name_for p (pr_limiter p) (pipeline_run pr)) (get_resource_selectors pr.metadata)
            global

      -- So where the store enforces the level "global", the limit of its root is enforced.
      pub global_limit_is_enforced :
          (outcome : Outcome) (n : ℕ) {w' : World S}
          → level_of ≡ level_global
          → field_with_fallback w.store.global_config.config (limit_field outcome) ≡ some (pos n)
          → cleanup_for outcome (pipeline_run pr) w ≡ (ok tt, w')
          → length (
              keep
                (is_counted outcome)
                (keep (selects_object selects pr.metadata.namespace "") (all_objects w'.cluster)))
            ≤ n
      global_limit_is_enforced outcome n global limited h =
          limit_is_enforced outcome n (ap (λ l. l == level_resource) global)
            (setting_at_global outcome global ∙ limited) h
