-- ===== src/Config/Precedence.antt =====
-- Which part of the configuration a setting comes from.
use tektoncd_pruner.Prelude.{
  String, ◌≡◌, refl, Option, none, some, List, [], ◌∷◌, arith, ◌⊎◌, inl, inr,
}
use tektoncd_pruner.Go.Dict.{Dict, get, find}
use tektoncd_pruner.Config.Spec.{
  PrunerResourceType, resource_pipeline_run, resource_task_run, PrunerFieldType, PrunerConfig,
  EnforcedConfigLevel, level_namespace, level_resource, SelectorSpec, NamespaceSpec, GlobalConfig,
}
use tektoncd_pruner.Config.Select.{resource_level, find_in_specs}
use tektoncd_pruner.Config.Field.{get_resource_field_data, namespace_level}

-- A namespace without its groups.
abbrev pub without_groups : NamespaceSpec → NamespaceSpec
without_groups spec = record spec { pipeline_runs = []; task_runs = [] }

pub strip : List (String × NamespaceSpec) → List (String × NamespaceSpec)
strip [] = []
strip ((k, spec) ∷ rest) = (k, without_groups spec) ∷ strip rest

abbrev pub strip_dict : Dict NamespaceSpec → Dict NamespaceSpec
strip_dict none = none
strip_dict (some l) = some (strip l)

abbrev pub strip_all : GlobalConfig → GlobalConfig
strip_all g = record g { namespaces = strip_dict g.namespaces }

abbrev stripped : Option NamespaceSpec → Option NamespaceSpec
stripped none = none
stripped (some spec) = some (without_groups spec)

find-strip :
    (k : String) (l : List (String × NamespaceSpec)) → find k (strip l) ≡ stripped (find k l)
unfolding find strip
find-strip k [] = refl
find-strip k ((j, spec) ∷ l) = ground (arith, find-strip k l)

find_in_specs_nil :
    (name : String) (selector : SelectorSpec) (field : PrunerFieldType)
    → find_in_specs name selector field [] ≡ (none, "")
unfolding find_in_specs
find_in_specs_nil name selector field = ground arith

get-strip_dict : (m : Dict NamespaceSpec) (k : String) → get (strip_dict m) k ≡ stripped (get m k)
unfolding find
get-strip_dict none k = refl
get-strip_dict (some l) k = find-strip k l

module _ (name : String) (selector : SelectorSpec) (field : PrunerFieldType) where
  resource_level-strip :
      (m : Dict NamespaceSpec) (namespace : String) (resource_type : PrunerResourceType)
      → (resource_level (strip_dict m) namespace name selector resource_type field).0 ≡ none
  unfolding resource_level
  resource_level-strip m namespace resource_pipeline_run =
      ground (arith, get-strip_dict m namespace, find_in_specs_nil name selector field)
  resource_level-strip m namespace resource_task_run =
      ground (arith, get-strip_dict m namespace, find_in_specs_nil name selector field)

  namespace_level-strip :
      (g : GlobalConfig) (namespace : String)
      → namespace_level (strip_all g) namespace field ≡ namespace_level g namespace field
  unfolding namespace_level
  namespace_level-strip g namespace = ground (arith, get-strip_dict g.namespaces namespace)

  namespace_level-root :
      (g : GlobalConfig) (root : PrunerConfig) (namespace : String) {spec : NamespaceSpec}
      → get g.namespaces namespace ≡ some spec
      → namespace_level g namespace field
        ≡ namespace_level (record g { config = root }) namespace field
  unfolding namespace_level
  namespace_level-root g root namespace listed = ground arith

  -- At the level "namespace" the groups of every namespace are ignored: the setting is the one that
  -- the level "resource" gives for the same configuration without groups.
  pub namespace_level_ignores_groups :
      (g : GlobalConfig) (namespace : String) (resource_type : PrunerResourceType)
      → get_resource_field_data g namespace name selector resource_type field level_namespace
        ≡ get_resource_field_data
            (strip_all g)
            namespace
            name
            selector
            resource_type
            field
            level_resource
  unfolding get_resource_field_data
  namespace_level_ignores_groups g namespace resource_type = ground (
    arith,
    resource_level-strip g.namespaces namespace resource_type,
    namespace_level-strip g namespace,
  )

  -- A listed namespace inherits nothing from the root of the configuration: at the levels
  -- "namespace" and "resource" another root gives the same setting.
  listed_namespace_ignores_root :
      (g : GlobalConfig) (root : PrunerConfig) (namespace : String)
      (resource_type : PrunerResourceType) (level : EnforcedConfigLevel) {spec : NamespaceSpec}
      → get g.namespaces namespace ≡ some spec
      → (level ≡ level_namespace) ⊎ (level ≡ level_resource)
      → get_resource_field_data g namespace name selector resource_type field level
        ≡ get_resource_field_data
            (record g { config = root })
            namespace
            name
            selector
            resource_type
            field
            level
  unfolding get_resource_field_data
  listed_namespace_ignores_root g root namespace resource_type level listed (inl at_namespace) =
      rw at_namespace (namespace_level-root g root namespace listed)
  listed_namespace_ignores_root g root namespace resource_type level listed (inr at_resource) =
      rw at_resource (rw (namespace_level-root g root namespace listed))
