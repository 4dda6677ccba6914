-- ===== src/Config/Store.antt =====
-- `prunerConfigStore`: the loaded configuration, and the six getters. Each getter holds the mutex
-- for its whole body, so it is one step on the store.
use tektoncd_pruner.Prelude.{String, Option, none, some, ◌==◌, if◌then◌else◌, not, []}
use tektoncd_pruner.Go.Dict.{Dict, get, find}
use tektoncd_pruner.Go.Exec.{Error, Result, ok, err}
use tektoncd_pruner.Config.Spec.{
  resource_pipeline_run, resource_task_run, ttl_seconds, successful_limit, failed_limit,
  SelectorSpec, GlobalConfig, empty_config,
}
use tektoncd_pruner.Config.Select.{Found}
use tektoncd_pruner.Config.Level.{
  get_pipeline_enforced_config_level, get_task_enforced_config_level,
}
use tektoncd_pruner.Config.Field.{get_resource_field_data}

-- `prunerConfigStore`, without its mutex
pub record PrunerConfigStore : Type 0 where
  pub global_config : GlobalConfig

-- `&GlobalConfig{}`
abbrev pub empty_global_config : GlobalConfig
empty_global_config = record { config = empty_config; namespaces = none }

-- A nil map of namespaces is replaced by an empty one.
abbrev pub with_namespaces : GlobalConfig → GlobalConfig
with_namespaces g = elim g.namespaces [ none ↦ record g { namespaces = some [] } | some l ↦ g ]

abbrev pub loaded : Result GlobalConfig → PrunerConfigStore → Option Error × PrunerConfigStore
loaded (err e) ps = (some e, ps)
loaded (ok g) ps = (none, record ps { global_config = with_namespaces g })

abbrev pub pruner_global_config_key : String
pruner_global_config_key = "global-config"

-- `LoadGlobalConfig`, of the ConfigMap's data. `unmarshal` is the vendored `yaml.Unmarshal`.
unfoldable pub load_global_config :
    (String → Result GlobalConfig)
    → Dict String
    → PrunerConfigStore
    → Option Error × PrunerConfigStore
unfolding find
load_global_config unmarshal config_map ps = elim (get config_map pruner_global_config_key) [
  | none ↦ loaded (ok empty_global_config) ps
  | some text ↦ loaded (if not (text == "") then unmarshal text else ok empty_global_config) ps
]

module _ (ps : PrunerConfigStore) (namespace name : String) (selector : SelectorSpec) where
  unfoldable pub get_pipeline_ttl_seconds_after_finished : Found
  unfolding get_pipeline_enforced_config_level get_resource_field_data
  get_pipeline_ttl_seconds_after_finished =
      get_resource_field_data ps.global_config namespace name selector resource_pipeline_run
        ttl_seconds (get_pipeline_enforced_config_level ps.global_config namespace name selector)

  unfoldable pub get_pipeline_success_history_limit_count : Found
  unfolding get_pipeline_enforced_config_level get_resource_field_data
  get_pipeline_success_history_limit_count =
      get_resource_field_data ps.global_config namespace name selector resource_pipeline_run
        successful_limit
        (get_pipeline_enforced_config_level ps.global_config namespace name selector)

  unfoldable pub get_pipeline_failed_history_limit_count : Found
  unfolding get_pipeline_enforced_config_level get_resource_field_data
  get_pipeline_failed_history_limit_count =
      get_resource_field_data ps.global_config namespace name selector resource_pipeline_run
        failed_limit (get_pipeline_enforced_config_level ps.global_config namespace name selector)

  unfoldable pub get_task_ttl_seconds_after_finished : Found
  unfolding get_task_enforced_config_level get_resource_field_data
  get_task_ttl_seconds_after_finished =
      get_resource_field_data ps.global_config namespace name selector resource_task_run ttl_seconds
        (get_task_enforced_config_level ps.global_config namespace name selector)

  unfoldable pub get_task_success_history_limit_count : Found
  unfolding get_task_enforced_config_level get_resource_field_data
  get_task_success_history_limit_count =
      get_resource_field_data ps.global_config namespace name selector resource_task_run
        successful_limit (get_task_enforced_config_level ps.global_config namespace name selector)

  unfoldable pub get_task_failed_history_limit_count : Found
  unfolding get_task_enforced_config_level get_resource_field_data
  get_task_failed_history_limit_count =
      get_resource_field_data ps.global_config namespace name selector resource_task_run
        failed_limit (get_task_enforced_config_level ps.global_config namespace name selector)
