-- ===== src/Safety/Configured.antt =====
-- From the ConfigMap to the cluster: a collection loads the configuration, by which a later
-- reconciliation limits the runs.
use tektoncd_pruner.Prelude.{
  String, ℕ, ◌≤◌, pos, Bool, false, arith, none, some, List, ◌≡◌, refl, ap, ◌∙◌, ◌==◌, length,
}
use tektoncd_pruner.Go.Dict.{Dict, get, find}
use tektoncd_pruner.Go.Exec.{Result, ok}
use tektoncd_pruner.Kube.Object.{PipelineRun, pipeline_run}
use tektoncd_pruner.Kube.Api.{Platform}
use tektoncd_pruner.Config.Spec.{
  GlobalConfig, NamespaceSpec, SelectorSpec, level_global, level_resource,
}
use tektoncd_pruner.Config.Field.{field_with_fallback}
use tektoncd_pruner.Config.Level.{
  get_pipeline_enforced_config_level, get_enforced_config_level, namespace_spec_level,
}
use tektoncd_pruner.Config.Store.{
  PrunerConfigStore, load_global_config, with_namespaces, pruner_global_config_key,
}
use tektoncd_pruner.Config.Helper.{get_resource_selectors}
use tektoncd_pruner.History.Bounds.{name_for}
use tektoncd_pruner.World.{World, call}
use tektoncd_pruner.Pruner.Namespaces.{CoreClient, prepare_collection}
use tektoncd_pruner.Runs.Reconcile.{reconcile_pipeline_run}
use tektoncd_pruner.Runs.States.{pr_limiter, pr_handler}
use tektoncd_pruner.Runs.Enforced.{
  Outcome, limit_field, IsPipelineServer, level_of, setting_at_global,
}
use tektoncd_pruner.Safety.Reconcilers.{IsCluster}
use tektoncd_pruner.Safety.Settings.{store_loaded_sets}
use tektoncd_pruner.Safety.Enforced.{
  runs_of, within_limit, IsNew, IsLimited, reconciliation_enforces_limit,
}

-- What the ConfigMap's data set, as `yaml.Unmarshal` reads them.
pub record Sets (unmarshal : String → Result GlobalConfig) (config_map : Dict String)
    (g : GlobalConfig) : Type 0 where
  pub text : String
  pub given : get config_map pruner_global_config_key ≡ some text
  pub written : (text == "") ≡ false
  pub read : unmarshal text ≡ ok g

loaded_when_given :
    {unmarshal : String → Result GlobalConfig} {config_map : Dict String} {g : GlobalConfig}
    (store : PrunerConfigStore)
    → Sets unmarshal config_map g
    → load_global_config unmarshal config_map store
      ≡ (none, record store { global_config = with_namespaces g })
unfolding load_global_config
loaded_when_given store h = rw (h.given, load_global_config) (rw h.written (rw h.read refl))

-- Loading keeps the root of the configuration, and lists no further namespace.
root_of_loaded :
    (g : GlobalConfig) (d : Dict NamespaceSpec)
    → g.namespaces ≡ d
    → (with_namespaces g).config ≡ g.config
root_of_loaded g none e = rw e refl
root_of_loaded g (some l) e = rw e refl

unlisted_when_loaded :
    (g : GlobalConfig) (d : Dict NamespaceSpec) (namespace : String)
    → g.namespaces ≡ d
    → get d namespace ≡ none
    → get (with_namespaces g).namespaces namespace ≡ none
unfolding find
unlisted_when_loaded g none namespace e h = rw e refl
unlisted_when_loaded g (some l) namespace e h = rw e h

level_of_root :
    (g : GlobalConfig) (namespace name : String) (selector : SelectorSpec)
    → get g.namespaces namespace ≡ none
    → g.config.enforced_config_level ≡ some level_global
    → get_pipeline_enforced_config_level g namespace name selector ≡ level_global
unfolding get_pipeline_enforced_config_level get_enforced_config_level namespace_spec_level
level_of_root g namespace name selector unlisted root = ground (arith, unlisted, root)

level_of_loaded :
    (g : GlobalConfig) (namespace name : String) (selector : SelectorSpec)
    → get g.namespaces namespace ≡ none
    → g.config.enforced_config_level ≡ some level_global
    → get_pipeline_enforced_config_level (with_namespaces g) namespace name selector ≡ level_global
level_of_loaded g namespace name selector unlisted root =
    level_of_root (with_namespaces g) namespace name selector
      (unlisted_when_loaded g g.namespaces namespace refl unlisted)
      (ap (λ c. c.enforced_config_level) (root_of_loaded g g.namespaces refl) ∙ root)

module _ {S : Type 0} (p : Platform S) (core : CoreClient S) where
  -- Whatever the listing of the namespaces returns.
  pub loaded_config :
      {config_map : Dict String} {g : GlobalConfig} (w : World S)
      → (core.get_config_map w.cluster).0 ≡ ok config_map
      → Sets core.unmarshal config_map g
      → (prepare_collection p core w).1.store.global_config ≡ with_namespaces g
  unfolding prepare_collection call
  loaded_config {config_map} {g} w e h = rw e (
      rw (loaded_when_given w.store h) (
        ap (λ store. store.global_config)
          (store_loaded_sets p core config_map
            (none, record w.store { global_config = with_namespaces g })
            (record w { cluster = (core.get_config_map w.cluster).1 }))))

module _ {S : Type 0} (p : Platform S) (prs : S → List PipelineRun)
    (selects : String → String → PipelineRun → Bool) (laws : IsPipelineServer p prs selects)
    (core : CoreClient S) (outcome : Outcome) (pr : PipelineRun) (n : ℕ) where
  -- A limit at the root of a configuration that was loaded is in force.
  pub loaded-IsLimited :
      (g : GlobalConfig) (v : World S)
      → v.store.global_config ≡ with_namespaces g
      → get g.namespaces pr.metadata.namespace ≡ none
      → g.config.enforced_config_level ≡ some level_global
      → field_with_fallback g.config (limit_field outcome) ≡ some (pos n)
      → IsLimited p prs selects laws outcome pr n v
  loaded-IsLimited g v stored unlisted root limited =
      let name = name_for p (pr_limiter p) (pipeline_run pr) in
      let selectors = get_resource_selectors pr.metadata in
      let at_global : level_of p prs selects laws pr v ≡ level_global =
        ap (λ c. get_pipeline_enforced_config_level c pr.metadata.namespace name selectors) stored
        ∙ level_of_loaded g pr.metadata.namespace name selectors unlisted root in
      record {
        wide = ap (λ l. l == level_resource) at_global;
        limited =
            setting_at_global p prs selects laws pr v outcome at_global
            ∙ ap (λ c. field_with_fallback c.config (limit_field outcome)) stored
            ∙ ap (λ c. field_with_fallback c (limit_field outcome))
                (root_of_loaded g g.namespaces refl)
            ∙ limited;
      }

module _ {S : Type 0} (p : Platform S) (prs : S → List PipelineRun)
    (selects : String → String → PipelineRun → Bool) (laws : IsPipelineServer p prs selects)
    (core : CoreClient S) (outcome : Outcome) (pr : PipelineRun) (n : ℕ)
    (cluster : IsCluster (within_limit p prs selects laws outcome pr.metadata.namespace n) p) where
  -- With an API server that keeps to `IsPipelineServer`, and whose calls all keep the number of the
  -- completed runs of an outcome in the namespace at `n` or less where it is so: where a collection
  -- has read a ConfigMap that enforces the level "global" at its root, limits the runs of the outcome
  -- there to `n` and does not list the namespace, any later reconciliation of a new PipelineRun of
  -- the outcome that returns no error, under the store as the collection left it, leaves at most `n`
  -- of them in the namespace.
  pub configured_limit_is_enforced :
      {config_map : Dict String} {g : GlobalConfig} (u v : World S) {w : World S}
      → (core.get_config_map u.cluster).0 ≡ ok config_map
      → Sets core.unmarshal config_map g
      → get g.namespaces pr.metadata.namespace ≡ none
      → g.config.enforced_config_level ≡ some level_global
      → field_with_fallback g.config (limit_field outcome) ≡ some (pos n)
      → v.store ≡ (prepare_collection p core u).1.store
      → IsNew p prs selects laws outcome pr
      → reconcile_pipeline_run p (pr_limiter p) (pr_handler p) pr v ≡ (ok tt, w)
      → length (runs_of p prs selects laws outcome pr.metadata.namespace w.cluster) ≤ n
  configured_limit_is_enforced u v {w} found sets unlisted root limited same new h =
      let set : IsLimited p prs selects laws outcome pr n v =
        loaded-IsLimited p prs selects laws core outcome pr n _ v
          (ap (λ store. store.global_config) same ∙ loaded_config p core u found sets) unlisted root
          limited in
      reconciliation_enforces_limit p prs selects laws outcome pr n cluster v w new set.wide
        set.limited h
