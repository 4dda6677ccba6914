-- ===== src/Config/Resolved.antt =====
-- `getResourceFieldData` gives what its reference gives.
use tektoncd_pruner.Prelude.{
  String, ℤ, true, false, not, ◌&&◌, ◌||◌, Option, none, some, List, [], ◌∷◌, ◌++◌, ◌≡◌, refl, sym,
  any, arith, ◌==◌, if◌then◌else◌, is_some, Bool-cases, inl, inr,
}
use tektoncd_pruner.Go.Dict.{get}
use tektoncd_pruner.Config.Spec.{
  PrunerResourceType, PrunerFieldType, ttl_seconds, successful_limit, failed_limit, PrunerConfig,
  EnforcedConfigLevel, level_global, level_namespace, level_resource, SelectorSpec, ResourceSpec,
  NamespaceSpec, GlobalConfig,
}
use tektoncd_pruner.Config.Select.{
  Found, annotations_match, labels_match, specs_of, is_empty, find_by_name, find_by_selector,
  find_in_specs, resource_level, field_by_selector,
}
use tektoncd_pruner.Config.Groups.{match_group_matches}
use tektoncd_pruner.Config.Meets.{is_empty-eq-is_bare, group_matches-eq-meets}
use tektoncd_pruner.Config.Field.{
  field_with_fallback, get_resource_field_data, namespace_level, global_level,
}
use tektoncd_pruner.Config.Reference.{
  first_value, first_match, places, places_by_name, places_by_selector, places_of_groups, places_at,
  group_places, places_of_namespace, places_of_resource, meets,
}

by_name_is_first :
    (name : String) (field : PrunerFieldType) (specs : List ResourceSpec)
    → (find_by_name name field specs).0
      ≡ first_value
          (group_places places_by_name field (first_match (λ spec. spec.name == name) specs))
unfolding find_by_name first_value first_match places_by_name
by_name_is_first name field [] = refl
by_name_is_first name ttl_seconds (spec ∷ specs) =
    ground (arith, by_name_is_first name ttl_seconds specs)
by_name_is_first name successful_limit (spec ∷ specs) =
    ground (arith, by_name_is_first name successful_limit specs)
by_name_is_first name failed_limit (spec ∷ specs) =
    ground (arith, by_name_is_first name failed_limit specs)

selector_places :
    (c : PrunerConfig) (field : PrunerFieldType)
    → first_value (places_by_selector c field) ≡ field_by_selector c field
unfolding first_value places_by_selector
selector_places c ttl_seconds = ground arith
selector_places c successful_limit = ground arith
selector_places c failed_limit = ground arith

by_selector_is_first :
    (selector : SelectorSpec) (field : PrunerFieldType) (specs : List ResourceSpec)
    → (find_by_selector selector field specs).0
      ≡ first_value (group_places places_by_selector field (first_match (meets selector) specs))
unfolding find_by_selector first_match
by_selector_is_first selector field [] = unfold first_value in refl
by_selector_is_first selector field (spec ∷ specs) = ground (
  arith,
  match_group_matches selector spec.config field spec.selector,
  group_matches-eq-meets selector spec,
  selector_places spec.config field,
  by_selector_is_first selector field specs,
)

-- A run without annotations and labels matches no selector.
matches_nothing :
    (selector : SelectorSpec) (ss : List SelectorSpec)
    → is_empty selector.match_annotations ≡ true
    → is_empty selector.match_labels ≡ true
    → any (λ s. annotations_match selector s || labels_match selector s) ss ≡ false
matches_nothing selector [] h k = refl
matches_nothing selector (s ∷ ss) h k = ground (arith, matches_nothing selector ss h k)

matches_no_group :
    (selector : SelectorSpec) (specs : List ResourceSpec)
    → is_empty selector.match_annotations ≡ true
    → is_empty selector.match_labels ≡ true
    → first_match (meets selector) specs ≡ none
unfolding first_match
matches_no_group selector [] h k = refl
matches_no_group selector (spec ∷ specs) h k = ground (
  arith,
  group_matches-eq-meets selector spec,
  matches_nothing selector spec.selector h k,
  matches_no_group selector specs h k,
)

groups_are_first :
    (name : String) (selector : SelectorSpec) (field : PrunerFieldType) (specs : List ResourceSpec)
    → (find_in_specs name selector field specs).0
      ≡ first_value (places_of_groups name selector field specs)
unfolding find_in_specs places_of_groups
groups_are_first name selector field specs =
    rw
      (
        sym (is_empty-eq-is_bare selector.match_annotations),
        sym (is_empty-eq-is_bare selector.match_labels),
      )
      elim (Bool-cases (
        not (name == "")
        && (is_empty selector.match_annotations || is_empty selector.match_labels))) [
          | inl named ↦ rw named (by_name_is_first name field specs)
          | inr unnamed ↦
              elim (Bool-cases (
                not (is_empty selector.match_annotations)
                || not (is_empty selector.match_labels))) [
                  | inl selected ↦
                      rw unnamed (rw selected (by_selector_is_first selector field specs))
                  | inr bare ↦ rw unnamed (
                      rw bare (
                        rw (matches_no_group selector specs (ground arith) (ground arith))
                          (unfold first_value in refl)))
                ]
        ]

places_first :
    (c : PrunerConfig) (field : PrunerFieldType)
    → first_value (places c field) ≡ field_with_fallback c field
unfolding first_value places
places_first c ttl_seconds = ground arith
places_first c successful_limit = ground arith
places_first c failed_limit = ground arith

first_value-append :
    (xs ys : List (Option ℤ))
    → first_value (xs ++ ys) ≡ (if is_some (first_value xs) then first_value xs else first_value ys)
unfolding first_value
first_value-append [] ys = refl
first_value-append (none ∷ xs) ys = first_value-append xs ys
first_value-append (some n ∷ xs) ys = refl

namespace_is_first :
    (g : GlobalConfig) (namespace : String) (field : PrunerFieldType)
    (listed : Option NamespaceSpec)
    → get g.namespaces namespace ≡ listed
    → (namespace_level g namespace field).0 ≡ first_value (places_of_namespace g listed field)
unfolding namespace_level global_level
namespace_is_first g namespace field none e = rw (e, namespace_level) (rw places_first refl)
namespace_is_first g namespace field (some spec) e = rw (e, namespace_level) (rw places_first refl)

resource_is_first :
    (g : GlobalConfig) (namespace name : String) (selector : SelectorSpec)
    (resource_type : PrunerResourceType) (field : PrunerFieldType) (listed : Option NamespaceSpec)
    → get g.namespaces namespace ≡ listed
    → (resource_level g.namespaces namespace name selector resource_type field).0
      ≡ first_value (places_of_resource listed name selector resource_type field)
unfolding resource_level
resource_is_first g namespace name selector resource_type field none e =
    rw (e, resource_level) (unfold first_value in refl)
resource_is_first g namespace name selector resource_type field (some spec) e =
    rw (e, resource_level) (groups_are_first name selector field (specs_of spec resource_type))

chosen :
    (found rest : Found) (xs ys : List (Option ℤ))
    → found.0 ≡ first_value xs
    → rest.0 ≡ first_value ys
    → (if is_some found.0 then found else rest).0 ≡ first_value (xs ++ ys)
chosen found rest xs ys h k = ground (arith, h, k, first_value-append xs ys)

-- A setting of a run is the first one that is set in the places that the level names, in their order:
-- at the level "resource" the run's group and then its namespace, at the level "namespace" the
-- namespace, or the root for one that is not listed, at the level "global" the root, and at any other
-- level none. The run's group is the first one of its name, where it has a name and no annotations or
-- no labels, and else the first one with a selector that it matches.
pub get_resource_field_data-eq-first_value :
    (g : GlobalConfig) (namespace name : String) (selector : SelectorSpec)
    (resource_type : PrunerResourceType) (field : PrunerFieldType) (level : EnforcedConfigLevel)
    → (get_resource_field_data g namespace name selector resource_type field level).0
      ≡ first_value
          (places_at level g (get g.namespaces namespace) name selector resource_type field)
unfolding get_resource_field_data places_at
get_resource_field_data-eq-first_value g namespace name selector resource_type field level =
    let listed = get g.namespaces namespace in
    let at_resource = resource_is_first g namespace name selector resource_type field listed refl in
    let at_namespace = namespace_is_first g namespace field listed refl in
    elim (Bool-cases (level == level_resource)) [
      | inl resource ↦ rw resource (
          chosen (resource_level g.namespaces namespace name selector resource_type field)
            (namespace_level g namespace field)
            (places_of_resource listed name selector resource_type field)
            (places_of_namespace g listed field) at_resource at_namespace)
      | inr other ↦ elim (Bool-cases (level == level_namespace)) [
        | inl in_namespace ↦ rw other (rw in_namespace at_namespace)
        | inr elsewhere ↦ elim (Bool-cases (level == level_global)) [
          | inl global ↦
              rw other (
                rw elsewhere (rw global (unfold global_level in sym (places_first g.config field))))
          | inr unknown ↦ rw other (rw elsewhere (rw unknown (unfold first_value in refl)))
        ]
      ]
    ]
