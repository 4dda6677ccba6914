-- ===== src/Config/Field.antt =====
-- `getResourceFieldData`: one setting at the enforced level.
use tektoncd_pruner.Prelude.{String, ℤ, Option, none, some, ◌==◌, if◌then◌else◌, is_some}
use tektoncd_pruner.Go.Dict.{get, find}
use tektoncd_pruner.Config.Spec.{
  PrunerResourceType, PrunerFieldType, ttl_seconds, successful_limit, failed_limit,
  EnforcedConfigLevel, level_global, level_namespace, level_resource, PrunerConfig, SelectorSpec,
  GlobalConfig,
}
use tektoncd_pruner.Config.Select.{Found, not_found, resource_level}

-- the field of a namespace or of the root, where `historyLimit` stands in for a missing limit
abbrev pub field_with_fallback : PrunerConfig → PrunerFieldType → Option ℤ
field_with_fallback c ttl_seconds = c.ttl_seconds_after_finished
field_with_fallback c successful_limit =
    if is_some c.successful_history_limit then c.successful_history_limit else c.history_limit
field_with_fallback c failed_limit =
    if is_some c.failed_history_limit then c.failed_history_limit else c.history_limit

-- the case `EnforcedConfigLevelGlobal`
unfoldable pub global_level : GlobalConfig → PrunerFieldType → Found
global_level g field = (field_with_fallback g.config field, "identified_by_global")

-- the case `EnforcedConfigLevelNamespace`, which also ends the case `EnforcedConfigLevelResource`
unfoldable pub namespace_level : GlobalConfig → String → PrunerFieldType → Found
unfolding find global_level
namespace_level g namespace field = elim (get g.namespaces namespace) [
  | some spec ↦ (field_with_fallback spec.config field, "identified_by_ns")
  | none ↦ global_level g field
]

unfoldable pub get_resource_field_data :
    GlobalConfig
    → String
    → String
    → SelectorSpec
    → PrunerResourceType
    → PrunerFieldType
    → EnforcedConfigLevel
    → Found
unfolding resource_level namespace_level
get_resource_field_data g namespace name selector resource_type field level =
    if level == level_resource
    then (let found = resource_level g.namespaces namespace name selector resource_type field in
        if is_some found.0 then found else namespace_level g namespace field)
    else if level == level_namespace
    then namespace_level g namespace field
    else if level == level_global
    then global_level g field
    else not_found
