-- ===== src/Tests/Reconciled.antt =====
-- A cluster of PipelineRuns in memory that answers every call, and a whole reconciliation of it.
use mathlib.Core.List.{map}
use tektoncd_pruner.Prelude.{
  String, ◌≤◌, pos, Bool, not, some, List, [], ◌∷◌, ◌≡◌, refl, ap, sym, ◌∙◌, subst, arith, keep,
  length, false, ◌==◌, if◌then◌else◌, All, keep_comm, length-keep-le,
}
use tektoncd_pruner.Go.Dict.{find}
use tektoncd_pruner.Go.Exec.{Result, ok, err}
use tektoncd_pruner.Kube.Object.{Object, PipelineRun, pipeline_run}
use tektoncd_pruner.Kube.Api.{Platform}
use tektoncd_pruner.Config.Spec.{level_resource}
use tektoncd_pruner.Config.Level.{get_pipeline_enforced_config_level}
use tektoncd_pruner.World.{World}
use tektoncd_pruner.Config.Store.{
  get_pipeline_success_history_limit_count, get_pipeline_ttl_seconds_after_finished,
}
use tektoncd_pruner.History.Event.{is_processed}
use tektoncd_pruner.Runs.PipelineRuns.{
  pr_list, pr_delete, pr_get, pr_patch, pr_is_completed, pr_is_successful,
}
use tektoncd_pruner.History.Cleanup.{is_successful_resource}
use tektoncd_pruner.History.Enforcement.{has_key}
use tektoncd_pruner.Runs.States.{pr_limiter, pr_handler}
use tektoncd_pruner.Runs.Reconcile.{reconcile_pipeline_run}
use tektoncd_pruner.Runs.Enforced.{
  success, IsPipelineServer, selects_object, has_run_key, level_of, setting_of, keep-map,
}
use tektoncd_pruner.Pruner.Namespaces.{CoreClient, prepare_collection}
use tektoncd_pruner.Safety.Configured.{Sets, configured_limit_is_enforced}
use tektoncd_pruner.Safety.View.{Spares-refl}
use tektoncd_pruner.Safety.OnCluster.{cluster-IsQuiet}
use tektoncd_pruner.Safety.Reconcilers.{IsCluster}
use tektoncd_pruner.Safety.Enforced.{runs_of, within_limit, IsNew, reconciliation_enforces_limit}
use tektoncd_pruner.Tests.Fixture.{unavailable, store}
use tektoncd_pruner.Tests.Cluster.{cluster_platform, all_of, of_namespace, builds, build_of}

abbrev pub find_run : String → String → List PipelineRun → Result PipelineRun
find_run namespace name [] = err unavailable
find_run namespace name (pr ∷ prs) =
    let rest = find_run namespace name prs in if has_run_key namespace name pr then ok pr else rest

abbrev pub full_platform : Platform (List PipelineRun)
full_platform = record cluster_platform {
  pipeline_runs = record cluster_platform.pipeline_runs {
    get = λ namespace name s. (find_run namespace name s, s);
    patch = λ namespace name patch s. (ok tt, s);
  };
}

pub full_laws : IsPipelineServer full_platform all_of of_namespace
full_laws = record {
  clock = λ s. refl;
  list = λ namespace selector s. refl;
  delete = λ namespace name s gone. refl;
}

any_are_safe : {Run : Type 0} (P : Run → Type 0) (rs : List Run) → All (λ r. P r → Unit {0}) rs
any_are_safe P [] = tt
any_are_safe P (r ∷ rs) = ((λ h. tt), any_are_safe P rs)

fewer :
    (namespace name : String) (s : List PipelineRun)
    → length (
        runs_of full_platform all_of of_namespace full_laws success "ns"
          (keep (λ pr. not (has_run_key namespace name pr)) s))
      ≤ length (runs_of full_platform all_of of_namespace full_laws success "ns" s)
fewer namespace name s =
    let passes : Object → Bool = is_successful_resource full_platform (pr_limiter full_platform) in
    let listed : Object → Bool = selects_object of_namespace "ns" "" in
    let others : Object → Bool = λ o. not (has_key namespace name o) in
    let before : List Object = map pipeline_run s in
    subst (λ l. length (keep passes (keep listed l)) ≤ length (keep passes (keep listed before)))
      (keep-map others s)
      (subst (λ l. length l ≤ length (keep passes (keep listed before)))
        (sym (
          ap (keep passes) (keep_comm listed others before)
          ∙ keep_comm passes others (keep listed before)))
        (length-keep-le others (keep passes (keep listed before))))

all_allowed : {Run : Type 0} (rs : List Run) → All (λ r. Unit {0}) rs
all_allowed [] = tt
all_allowed (r ∷ rs) = (tt, all_allowed rs)

pub full_cluster :
    IsCluster
      (within_limit full_platform all_of of_namespace full_laws success "ns" 1)
      full_platform
full_cluster = record {
  quiet = cluster-IsQuiet _ _ _ _ (λ s h. h);
  pipeline_runs = record {
    getting = λ namespace name w. Spares-refl _ w;
    got = λ namespace name s allowed within h completed. tt;
    listing = λ namespace selector w. Spares-refl _ w;
    listed = λ namespace selector s {rs} allowed within h. any_are_safe _ rs;
    inside = λ namespace selector s {rs} allowed h. all_allowed rs;
    read_inside = λ namespace name s allowed read. tt;
    patching = λ namespace name patch allowed w. Spares-refl _ w;
    deleting = λ namespace name safe w. record {
      stays = λ within. omega (arith, within, fewer namespace name w.cluster);
    };
  };
  task_runs = record {
    getting = λ namespace name w. Spares-refl _ w;
    got = λ namespace name s allowed within h completed. tt;
    listing = λ namespace selector w. Spares-refl _ w;
    listed = λ namespace selector s {rs} allowed within h. any_are_safe _ rs;
    inside = λ namespace selector s {rs} allowed h. all_allowed rs;
    read_inside = λ namespace name s allowed read. tt;
    patching = λ namespace name patch allowed w. Spares-refl _ w;
    deleting = λ namespace name safe w. Spares-refl _ w;
  };
}

abbrev pub newest : PipelineRun
newest = build_of "b" 3

abbrev reconciled : World (List PipelineRun)
reconciled =
    (reconcile_pipeline_run full_platform (pr_limiter full_platform) (pr_handler full_platform)
      newest builds).1

newest-IsNew : IsNew full_platform all_of of_namespace full_laws success newest
unfolding is_processed pr_is_completed pr_is_successful
newest-IsNew = record { live = refl; unprocessed = refl; completed = refl; ended = refl }

level_is_wide :
    (level_of full_platform all_of of_namespace full_laws newest builds == level_resource) ≡ false
unfolding get_pipeline_enforced_config_level
level_is_wide = refl

limited_to_one :
    setting_of full_platform all_of of_namespace full_laws newest builds success ≡ some (pos 1)
unfolding get_pipeline_enforced_config_level get_pipeline_success_history_limit_count
limited_to_one = refl

reconciliation_succeeds :
    reconcile_pipeline_run full_platform
      (pr_limiter full_platform)
      (pr_handler full_platform)
      newest
      builds
    ≡ (ok tt, reconciled)
unfolding reconcile_pipeline_run get_pipeline_enforced_config_level pr_list pr_delete pr_get
    pr_patch get_pipeline_success_history_limit_count get_pipeline_ttl_seconds_after_finished
    pr_is_completed pr_is_successful is_processed
reconciliation_succeeds = refl

reconciliation_enforces_limit_example :
    length (runs_of full_platform all_of of_namespace full_laws success "ns" reconciled.cluster) ≤ 1
reconciliation_enforces_limit_example =
    reconciliation_enforces_limit full_platform all_of of_namespace full_laws success newest 1
      full_cluster builds reconciled newest-IsNew level_is_wide limited_to_one
      reconciliation_succeeds

-- A ConfigMap that sets the same configuration.
abbrev pub limits_to_one : CoreClient (List PipelineRun)
limits_to_one = record {
  get_config_map = λ s. (ok (some (("global-config", "successfulHistoryLimit: 1") ∷ [])), s);
  list_namespaces = λ s. (ok ("ns" ∷ []), s);
  getenv = λ key. "";
  unmarshal = λ text. ok builds.store.global_config;
}

abbrev unconfigured : World (List PipelineRun)
unconfigured = record builds { store = store }

abbrev configured : World (List PipelineRun)
configured = (prepare_collection full_platform limits_to_one unconfigured).1

abbrev reconciled_later : World (List PipelineRun)
reconciled_later =
    (reconcile_pipeline_run full_platform (pr_limiter full_platform) (pr_handler full_platform)
      newest configured).1

later_reconciliation_succeeds :
    reconcile_pipeline_run full_platform
      (pr_limiter full_platform)
      (pr_handler full_platform)
      newest
      configured
    ≡ (ok tt, reconciled_later)
unfolding reconcile_pipeline_run get_pipeline_enforced_config_level pr_list pr_delete pr_get
    pr_patch get_pipeline_success_history_limit_count get_pipeline_ttl_seconds_after_finished
    pr_is_completed pr_is_successful is_processed prepare_collection
later_reconciliation_succeeds = refl

pub one_is_set :
    Sets limits_to_one.unmarshal
      (some (("global-config", "successfulHistoryLimit: 1") ∷ []))
      builds.store.global_config
unfolding find
one_is_set = record {
  text = "successfulHistoryLimit: 1";
  given = refl;
  written = refl;
  read = refl;
}

configured_limit_is_enforced_example :
    length
      (runs_of full_platform all_of of_namespace full_laws success "ns" reconciled_later.cluster)
    ≤ 1
unfolding find
configured_limit_is_enforced_example =
    configured_limit_is_enforced full_platform all_of of_namespace full_laws limits_to_one success
      newest 1 full_cluster unconfigured configured refl one_is_set refl refl refl refl newest-IsNew
      later_reconciliation_succeeds
