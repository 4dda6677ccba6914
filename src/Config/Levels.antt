-- ===== src/Config/Levels.antt =====
-- `getEnforcedConfigLevel` against a reference: the enforced level of a run is the first one that is
-- set by the groups that the run belongs to, by its namespace or by the root.
use mathlib.Core.List.{map}
use tektoncd_pruner.Prelude.{
  String, not, ◌&&◌, Option, none, some, List, [], ◌∷◌, ◌++◌, keep, ◌==◌, if◌then◌else◌,
}
use tektoncd_pruner.Config.Spec.{
  PrunerResourceType, EnforcedConfigLevel, level_resource, SelectorSpec, ResourceSpec,
  NamespaceSpec,
}
use tektoncd_pruner.Config.Select.{specs_of}
use tektoncd_pruner.Config.Reference.{meets, is_bare, first_match}

-- The first level that is set, and "resource" if none is.
unfoldable pub first_set : List (Option EnforcedConfigLevel) → EnforcedConfigLevel
first_set [] = level_resource
first_set (o ∷ rest) = let later = first_set rest in elim o [ none ↦ later | some level ↦ level ]

abbrev level_of_spec : ResourceSpec → Option EnforcedConfigLevel
level_of_spec spec = spec.config.enforced_config_level

-- The levels of the groups that a run belongs to: where it has a name and neither annotations nor
-- labels, the one of the first group of that name; else those of all the groups it meets.
unfoldable pub levels_of_groups :
    String → SelectorSpec → List ResourceSpec → List (Option EnforcedConfigLevel)
unfolding first_match
levels_of_groups name selector specs =
    if not (name == "") && (is_bare selector.match_annotations && is_bare selector.match_labels)
    then (elim (first_match (λ spec. spec.name == name) specs) [
      | none ↦ []
      | some spec ↦ spec.config.enforced_config_level ∷ []
    ])
    else map (λ spec. spec.config.enforced_config_level) (keep (meets selector) specs)

unfoldable pub levels_of :
    Option NamespaceSpec
    → String
    → SelectorSpec
    → PrunerResourceType
    → Option EnforcedConfigLevel
    → List (Option EnforcedConfigLevel)
unfolding levels_of_groups
levels_of none name selector resource_type root = root ∷ []
levels_of (some spec) name selector resource_type root =
    levels_of_groups name selector (specs_of spec resource_type)
    ++ spec.config.enforced_config_level ∷ root ∷ []

first_some : List (Option EnforcedConfigLevel) → Option EnforcedConfigLevel
first_some [] = none
first_some (o ∷ rest) =
    let later = first_some rest in elim o [ none ↦ later | some level ↦ some level ]

or_else : Option EnforcedConfigLevel → EnforcedConfigLevel → EnforcedConfigLevel
or_else none level = level
or_else (some own) level = own
