-- ===== src/Config/EntryOrder.antt =====
-- Go visits the entries of a map in an arbitrary order: the lookup of a setting (config.go) does not
-- depend on it.
use mathlib.Core.List.{Permᴰ}
use tektoncd_pruner.Prelude.{
  String, ◌≡◌, refl, ◌∙◌, Option, none, some, List, [], ◌∷◌, arith, Option-cases, inl, inr,
  length-perm,
}
use tektoncd_pruner.Go.Dict.{Dict, get, entries, len}
use tektoncd_pruner.Config.Spec.{
  PrunerFieldType, PrunerConfig, SelectorSpec, ResourceSpec, NamespaceSpec, GlobalConfig,
  EnforcedConfigLevel, PrunerResourceType,
}
use tektoncd_pruner.Config.Select.{
  all_match, annotations_match, labels_match, match_group, find_by_selector, find_in_specs,
  resource_level, specs_of,
}
use tektoncd_pruner.Config.Level.{
  level_by_selector, level_in_specs, level_of_group, namespace_spec_level,
  get_enforced_config_level,
}
use tektoncd_pruner.Config.Field.{get_resource_field_data}

-- The test of a selector does not depend on the order in which Go visits the run's entries.
pub all_match-perm :
    {xs ys : List (String × String)} (m : Dict String)
    → Permᴰ xs ys
    → all_match xs m ≡ all_match ys m
unfolding all_match
all_match-perm m Permᴰ.nil = refl
all_match-perm m (Permᴰ.cons {a = (k, v)} {b = (k', v')} e p) = cc (all_match-perm m p)
all_match-perm m (Permᴰ.swap {a = (k, v)} {b = (j, w)} {a' = (k', v')} {b' = (j', w')} e d) =
    ground (arith, e, d)
all_match-perm m (Permᴰ.trans p q) = all_match-perm m p ∙ all_match-perm m q

-- Two visits of one map.
abbrev pub SameEntries : Dict String → Dict String → Type 0
SameEntries none none = Unit
SameEntries none (some ys) = ⊥
SameEntries (some xs) none = ⊥
SameEntries (some xs) (some ys) = Permᴰ xs ys

all_match-same :
    (a b m : Dict String) → SameEntries a b → all_match (entries a) m ≡ all_match (entries b) m
all_match-same none none m h = refl
all_match-same none (some ys) m h = absurd h
all_match-same (some xs) none m h = absurd h
all_match-same (some xs) (some ys) m h = all_match-perm m h

len-same : (a b : Dict String) → SameEntries a b → len a ≡ len b
len-same none none h = refl
len-same none (some ys) h = absurd h
len-same (some xs) none h = absurd h
len-same (some xs) (some ys) h = length-perm h

module _ (selector selector' : SelectorSpec)
    (annotations : SameEntries selector.match_annotations selector'.match_annotations)
    (labels : SameEntries selector.match_labels selector'.match_labels) where
  annotations_match-same :
      (spec : SelectorSpec) → annotations_match selector spec ≡ annotations_match selector' spec
  annotations_match-same spec = rw (
    len-same selector.match_annotations selector'.match_annotations annotations,
    all_match-same selector.match_annotations selector'.match_annotations spec.match_annotations
        annotations,
  )

  labels_match-same :
      (spec : SelectorSpec) → labels_match selector spec ≡ labels_match selector' spec
  labels_match-same spec = rw (
    len-same selector.match_labels selector'.match_labels labels,
    all_match-same selector.match_labels selector'.match_labels spec.match_labels labels,
  )

  match_group-same :
      (c : PrunerConfig) (field : PrunerFieldType) (specs : List SelectorSpec)
      → match_group selector c field specs ≡ match_group selector' c field specs
  unfolding match_group
  match_group-same c field [] = refl
  match_group-same c field (spec ∷ specs) =
      rw (annotations_match-same spec, labels_match-same spec, match_group-same c field specs)

  find_by_selector-same :
      (field : PrunerFieldType) (specs : List ResourceSpec)
      → find_by_selector selector field specs ≡ find_by_selector selector' field specs
  unfolding find_by_selector
  find_by_selector-same field [] = refl
  find_by_selector-same field (spec ∷ specs) =
      ground
        (arith, match_group-same spec.config field spec.selector, find_by_selector-same field specs)

  find_in_specs-same :
      (name : String) (field : PrunerFieldType) (specs : List ResourceSpec)
      → find_in_specs name selector field specs ≡ find_in_specs name selector' field specs
  unfolding find_in_specs
  find_in_specs-same name field specs = ground (
    arith,
    len-same selector.match_annotations selector'.match_annotations annotations,
    len-same selector.match_labels selector'.match_labels labels,
    find_by_selector-same field specs,
  )

  level_of_group-same :
      (level : Option EnforcedConfigLevel) (specs : List SelectorSpec)
      → level_of_group selector level specs ≡ level_of_group selector' level specs
  unfolding level_of_group
  level_of_group-same level [] = refl
  level_of_group-same level (spec ∷ specs) =
      rw (annotations_match-same spec, labels_match-same spec, level_of_group-same level specs)

  level_by_selector-same :
      (specs : List ResourceSpec)
      → level_by_selector selector specs ≡ level_by_selector selector' specs
  unfolding level_by_selector
  level_by_selector-same [] = refl
  level_by_selector-same (spec ∷ specs) = ground (
    arith,
    level_of_group-same spec.config.enforced_config_level spec.selector,
    level_by_selector-same specs,
  )

  level_in_specs-same :
      (name : String) (specs : List ResourceSpec)
      → level_in_specs name selector specs ≡ level_in_specs name selector' specs
  unfolding level_in_specs
  level_in_specs-same name specs = ground (
    arith,
    len-same selector.match_annotations selector'.match_annotations annotations,
    len-same selector.match_labels selector'.match_labels labels,
    level_by_selector-same specs,
  )

  resource_level-same :
      (m : Dict NamespaceSpec) (namespace name : String) (resource_type : PrunerResourceType)
      (field : PrunerFieldType)
      → resource_level m namespace name selector resource_type field
        ≡ resource_level m namespace name selector' resource_type field
  unfolding resource_level
  resource_level-same m namespace name resource_type field = elim (Option-cases (get m namespace)) [
    | inl missing ↦ rw (missing, resource_level)
    | inr (spec, listed) ↦
        rw (listed, resource_level) (find_in_specs-same name field (specs_of spec resource_type))
  ]

  namespace_spec_level-same :
      (g : GlobalConfig) (namespace name : String) (resource_type : PrunerResourceType)
      → namespace_spec_level g namespace name selector resource_type
        ≡ namespace_spec_level g namespace name selector' resource_type
  unfolding namespace_spec_level
  namespace_spec_level-same g namespace name resource_type =
      elim (Option-cases (get g.namespaces namespace)) [
        | inl missing ↦ rw (missing, namespace_spec_level)
        | inr (spec, listed) ↦
            rw (listed, namespace_spec_level)
              (rw (level_in_specs-same name (specs_of spec resource_type)))
      ]

  -- Whatever the order in which the run's annotations and labels are visited, the enforced level and
  -- every setting at every level are the same.
  pub lookup_ignores_entry_order :
      (g : GlobalConfig) (namespace name : String) (resource_type : PrunerResourceType)
      (field : PrunerFieldType) (level : EnforcedConfigLevel)
      → (get_enforced_config_level g namespace name selector resource_type
          ≡ get_enforced_config_level g namespace name selector' resource_type)
        × (get_resource_field_data g namespace name selector resource_type field level
            ≡ get_resource_field_data g namespace name selector' resource_type field level)
  unfolding get_enforced_config_level get_resource_field_data
  lookup_ignores_entry_order g namespace name resource_type field level = (
    ground (arith, namespace_spec_level-same g namespace name resource_type),
    ground (arith, resource_level-same g.namespaces namespace name resource_type field),
  )
