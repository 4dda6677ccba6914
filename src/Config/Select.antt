-- ===== src/Config/Select.antt =====
-- The choice of a resource group: `getFromPrunerConfigResourceLevelwithSelector`.
use tektoncd_pruner.Prelude.{
  String, ℤ, ltb, Bool, true, false, not, ◌&&◌, ◌||◌, Option, none, some, List, [], ◌∷◌, ◌==◌,
  if◌then◌else◌, is_some,
}
use tektoncd_pruner.Go.Dict.{Dict, entries, len, get, find}
use tektoncd_pruner.Config.Spec.{
  PrunerResourceType, resource_pipeline_run, resource_task_run, PrunerFieldType, ttl_seconds,
  successful_limit, failed_limit, PrunerConfig, SelectorSpec, ResourceSpec, NamespaceSpec,
  identified_by_name, identified_by_annotation, identified_by_label,
}

-- `if actual, exists := m[key]; !exists || actual != value`, negated
abbrev pub has_entry : Dict String → String → String → Bool
has_entry m key value = elim (get m key) [ none ↦ false | some actual ↦ actual == value ]

-- `for key, value := range wanted { … match = false; break }`
unfoldable pub all_match : List (String × String) → Dict String → Bool
unfolding find
all_match [] m = true
all_match ((key, value) ∷ rest) m =
    let others = all_match rest m in if has_entry m key value then others else false

-- The test of one selector of a group against the run's annotations.
abbrev pub annotations_match : SelectorSpec → SelectorSpec → Bool
annotations_match selector spec =
    ltb 0 (len selector.match_annotations)
    && all_match (entries selector.match_annotations) spec.match_annotations

-- The same of the run's labels.
abbrev pub labels_match : SelectorSpec → SelectorSpec → Bool
labels_match selector spec =
    ltb 0 (len selector.match_labels) && all_match (entries selector.match_labels) spec.match_labels

-- The runs of the group's type.
abbrev pub specs_of : NamespaceSpec → PrunerResourceType → List ResourceSpec
specs_of spec resource_pipeline_run = spec.pipeline_runs
specs_of spec resource_task_run = spec.task_runs

-- the field that a match by name returns
abbrev pub field_by_name : PrunerConfig → PrunerFieldType → Option ℤ
field_by_name c ttl_seconds = c.ttl_seconds_after_finished
field_by_name c successful_limit = c.successful_history_limit
field_by_name c failed_limit = c.failed_history_limit

-- the field that a match by selector returns: the limit of failed runs goes by a test of the limit
-- of successful ones, as in the source
abbrev pub field_by_selector : PrunerConfig → PrunerFieldType → Option ℤ
field_by_selector c ttl_seconds = c.ttl_seconds_after_finished
field_by_selector c successful_limit =
    if is_some c.successful_history_limit then c.successful_history_limit else c.history_limit
field_by_selector c failed_limit =
    if is_some c.successful_history_limit then c.failed_history_limit else c.history_limit

abbrev pub Found : Type 0
Found = Option ℤ × String

abbrev pub not_found : Found
not_found = (none, "")

-- the loop over the groups by name
unfoldable pub find_by_name : String → PrunerFieldType → List ResourceSpec → Found
find_by_name name field [] = not_found
find_by_name name field (spec ∷ specs) =
    let rest = find_by_name name field specs in
    if spec.name == name then (field_by_name spec.config field, identified_by_name) else rest

-- the inner loop over the selectors of one group
unfoldable pub match_group :
    SelectorSpec → PrunerConfig → PrunerFieldType → List SelectorSpec → Option Found
unfolding all_match
match_group selector c field [] = none
match_group selector c field (spec ∷ specs) =
    let rest = match_group selector c field specs in
    if annotations_match selector spec
    then some (field_by_selector c field, identified_by_annotation)
    else if labels_match selector spec
    then some (field_by_selector c field, identified_by_label)
    else rest

-- the outer loop
unfoldable pub find_by_selector : SelectorSpec → PrunerFieldType → List ResourceSpec → Found
unfolding match_group
find_by_selector selector field [] = not_found
find_by_selector selector field (spec ∷ specs) =
    let rest = find_by_selector selector field specs in
    elim (match_group selector spec.config field spec.selector) [ none ↦ rest | some found ↦ found ]

abbrev pub is_empty : Dict String → Bool
is_empty m = not (ltb 0 (len m))

-- `name != ""` and one of the two selector maps empty; otherwise by selector, if there is one
unfoldable pub find_in_specs : String → SelectorSpec → PrunerFieldType → List ResourceSpec → Found
unfolding find_by_name find_by_selector
find_in_specs name selector field specs =
    if not (name == "") && (is_empty selector.match_annotations || is_empty selector.match_labels)
    then find_by_name name field specs
    else if not (is_empty selector.match_annotations) || not (is_empty selector.match_labels)
    then find_by_selector selector field specs
    else not_found

-- `getFromPrunerConfigResourceLevelwithSelector`
unfoldable pub resource_level :
    Dict NamespaceSpec
    → String
    → String
    → SelectorSpec
    → PrunerResourceType
    → PrunerFieldType
    → Found
unfolding find find_in_specs
resource_level namespaces_spec namespace name selector resource_type field =
    elim (get namespaces_spec namespace) [
      | none ↦ (none, "identifiedBy_global")
      | some spec ↦ find_in_specs name selector field (specs_of spec resource_type)
    ]
