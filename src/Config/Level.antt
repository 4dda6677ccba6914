-- ===== src/Config/Level.antt =====
-- The enforced level: `GetEnforcedConfigLevelFromNamespaceSpec`, `getEnforcedConfigLevel` and the
-- two methods that call it.
use tektoncd_pruner.Prelude.{
  String, not, ◌&&◌, ◌||◌, Option, none, some, List, [], ◌∷◌, ◌==◌, if◌then◌else◌,
}
use tektoncd_pruner.Go.Dict.{get, find}
use tektoncd_pruner.Config.Spec.{
  PrunerResourceType, resource_pipeline_run, resource_task_run, EnforcedConfigLevel, level_resource,
  SelectorSpec, ResourceSpec, GlobalConfig,
}
use tektoncd_pruner.Config.Select.{all_match, annotations_match, labels_match, specs_of, is_empty}

-- the loop by exact name; the first group of the name ends it
unfoldable pub level_by_name : String → List ResourceSpec → Option EnforcedConfigLevel
level_by_name name [] = none
level_by_name name (spec ∷ specs) =
    let rest = level_by_name name specs in
    if spec.name == name then spec.config.enforced_config_level else rest

-- the inner loop: the first selector that matches ends it, with the group's level
unfoldable pub level_of_group :
    SelectorSpec → Option EnforcedConfigLevel → List SelectorSpec → Option EnforcedConfigLevel
unfolding all_match
level_of_group selector level [] = none
level_of_group selector level (spec ∷ specs) =
    let rest = level_of_group selector level specs in
    if annotations_match selector spec
    then level
    else if labels_match selector spec
    then level
    else rest

-- the outer loop goes on after a group that gives no level
unfoldable pub level_by_selector : SelectorSpec → List ResourceSpec → Option EnforcedConfigLevel
unfolding level_of_group
level_by_selector selector [] = none
level_by_selector selector (spec ∷ specs) =
    let rest = level_by_selector selector specs in
    elim (level_of_group selector spec.config.enforced_config_level spec.selector) [
      | none ↦ rest
      | some level ↦ some level
    ]

unfoldable pub level_in_specs :
    String → SelectorSpec → List ResourceSpec → Option EnforcedConfigLevel
unfolding level_by_name level_by_selector
level_in_specs name selector specs =
    if not (name == "") && (is_empty selector.match_annotations && is_empty selector.match_labels)
    then level_by_name name specs
    else if not (is_empty selector.match_annotations) || not (is_empty selector.match_labels)
    then level_by_selector selector specs
    else none

-- `GetEnforcedConfigLevelFromNamespaceSpec`. The source reads the store's namespaces, not the ones
-- that it is given.
unfoldable pub namespace_spec_level :
    GlobalConfig → String → String → SelectorSpec → PrunerResourceType → Option EnforcedConfigLevel
unfolding find level_in_specs
namespace_spec_level global_config namespace name selector resource_type =
    elim (get global_config.namespaces namespace) [
      | none ↦ none
      | some spec ↦ elim (level_in_specs name selector (specs_of spec resource_type)) [
        | none ↦ spec.config.enforced_config_level
        | some level ↦ some level
      ]
    ]

-- `getEnforcedConfigLevel`
unfoldable pub get_enforced_config_level :
    GlobalConfig → String → String → SelectorSpec → PrunerResourceType → EnforcedConfigLevel
unfolding namespace_spec_level
get_enforced_config_level global_config namespace name selector resource_type =
    elim (namespace_spec_level global_config namespace name selector resource_type) [
      | some level ↦ level
      | none ↦ elim global_config.config.enforced_config_level [
        | some level ↦ level
        | none ↦ level_resource
      ]
    ]

-- `GetPipelineEnforcedConfigLevel`
unfoldable pub get_pipeline_enforced_config_level :
    GlobalConfig → String → String → SelectorSpec → EnforcedConfigLevel
unfolding get_enforced_config_level
get_pipeline_enforced_config_level global_config namespace name selector =
    get_enforced_config_level global_config namespace name selector resource_pipeline_run

-- `GetTaskEnforcedConfigLevel`
unfoldable pub get_task_enforced_config_level :
    GlobalConfig → String → String → SelectorSpec → EnforcedConfigLevel
unfolding get_enforced_config_level
get_task_enforced_config_level global_config namespace name selector =
    get_enforced_config_level global_config namespace name selector resource_task_run
