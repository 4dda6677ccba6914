-- ===== src/Config/Reference.antt =====
-- A reference for `getResourceFieldData`: the setting of a run is the first one that is set in the
-- places that the enforced level names, in their order.
use tektoncd_pruner.Prelude.{
  String, ℤ, Bool, not, ◌&&◌, ◌||◌, Option, none, some, List, [], ◌∷◌, ◌++◌, ◌==◌, if◌then◌else◌,
  is_some, any, true, false,
}
use tektoncd_pruner.Config.Spec.{
  PrunerResourceType, PrunerFieldType, ttl_seconds, successful_limit, failed_limit, PrunerConfig,
  EnforcedConfigLevel, level_global, level_namespace, level_resource, SelectorSpec, ResourceSpec,
  NamespaceSpec, GlobalConfig,
}
use tektoncd_pruner.Config.Select.{specs_of}
use tektoncd_pruner.Go.Dict.{Dict, get, entries}

abbrev pub is_bare : Dict String → Bool
is_bare m = elim (entries m) [ [] ↦ true | ◌∷◌ e rest ↦ false ]

-- The other map has the key with the value.
abbrev pub has_pair : Dict String → String × String → Bool
has_pair m (key, value) = elim (get m key) [ none ↦ false | some actual ↦ actual == value ]

-- There is some entry, and none that the other map lacks.
abbrev pub is_covered : Dict String → Dict String → Bool
is_covered m wanted = not (is_bare m) && not (any (λ e. not (has_pair wanted e)) (entries m))

-- All of the run's annotations, or all of its labels, are among those of a selector of the group.
abbrev pub meets : SelectorSpec → ResourceSpec → Bool
meets selector group =
    any
      (λ spec.
        is_covered selector.match_annotations spec.match_annotations
        || is_covered selector.match_labels spec.match_labels)
      group.selector

unfoldable pub first_value : List (Option ℤ) → Option ℤ
first_value [] = none
first_value (o ∷ rest) = let later = first_value rest in elim o [ none ↦ later | some n ↦ some n ]

unfoldable pub first_match : (ResourceSpec → Bool) → List ResourceSpec → Option ResourceSpec
first_match p [] = none
first_match p (spec ∷ specs) = let rest = first_match p specs in if p spec then some spec else rest

-- The places of a namespace or of the root.
unfoldable pub places : PrunerConfig → PrunerFieldType → List (Option ℤ)
places c ttl_seconds = c.ttl_seconds_after_finished ∷ []
places c successful_limit = c.successful_history_limit ∷ c.history_limit ∷ []
places c failed_limit = c.failed_history_limit ∷ c.history_limit ∷ []

-- The places of a group that is found by its name: `historyLimit` is none of them.
unfoldable pub places_by_name : PrunerConfig → PrunerFieldType → List (Option ℤ)
places_by_name c ttl_seconds = c.ttl_seconds_after_finished ∷ []
places_by_name c successful_limit = c.successful_history_limit ∷ []
places_by_name c failed_limit = c.failed_history_limit ∷ []

-- The places of a group that is found by its selectors: for the limit of failed runs, which of the
-- two counts depends on the limit of successful ones.
unfoldable pub places_by_selector : PrunerConfig → PrunerFieldType → List (Option ℤ)
places_by_selector c ttl_seconds = c.ttl_seconds_after_finished ∷ []
places_by_selector c successful_limit = c.successful_history_limit ∷ c.history_limit ∷ []
places_by_selector c failed_limit =
    if is_some c.successful_history_limit then c.failed_history_limit ∷ [] else c.history_limit ∷ []

abbrev pub group_places :
    (PrunerConfig → PrunerFieldType → List (Option ℤ))
    → PrunerFieldType
    → Option ResourceSpec
    → List (Option ℤ)
group_places of_config field none = []
group_places of_config field (some spec) = of_config spec.config field

-- The places of the groups of a namespace: by name, where the run has a name and no annotations or
-- no labels, and else by its selectors.
unfoldable pub places_of_groups :
    String → SelectorSpec → PrunerFieldType → List ResourceSpec → List (Option ℤ)
unfolding first_match places_by_name places_by_selector
places_of_groups name selector field specs =
    if not (name == "") && (is_bare selector.match_annotations || is_bare selector.match_labels)
    then group_places places_by_name field (first_match (λ spec. spec.name == name) specs)
    else group_places places_by_selector field (first_match (meets selector) specs)

-- The places of a namespace, or of the root for one that is not listed.
abbrev pub places_of_namespace :
    GlobalConfig → Option NamespaceSpec → PrunerFieldType → List (Option ℤ)
places_of_namespace g none field = places g.config field
places_of_namespace g (some spec) field = places spec.config field

abbrev pub places_of_resource :
    Option NamespaceSpec
    → String
    → SelectorSpec
    → PrunerResourceType
    → PrunerFieldType
    → List (Option ℤ)
places_of_resource none name selector resource_type field = []
places_of_resource (some spec) name selector resource_type field =
    places_of_groups name selector field (specs_of spec resource_type)

unfoldable pub places_at :
    EnforcedConfigLevel
    → GlobalConfig
    → Option NamespaceSpec
    → String
    → SelectorSpec
    → PrunerResourceType
    → PrunerFieldType
    → List (Option ℤ)
places_at level g listed name selector resource_type field =
    if level == level_resource
    then places_of_resource listed name selector resource_type field
      ++ places_of_namespace g listed field
    else if level == level_namespace
    then places_of_namespace g listed field
    else if level == level_global
    then places g.config field
    else []
