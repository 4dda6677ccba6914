-- ===== src/Config/Named.antt =====
-- How a run meets the groups of its namespace by name (config.go), for their settings and their
-- level.
use tektoncd_pruner.Prelude.{
  String, ◌≡◌, refl, ◌∙◌, sym, true, false, Option, none, some, List, [], ◌∷◌, arith, ◌==◌, ◌<◌,
  All,
}
use tektoncd_pruner.Go.Dict.{Dict, len, put, replace}
use tektoncd_pruner.Kube.Object.{ObjectMeta}
use tektoncd_pruner.Config.Spec.{PrunerFieldType, SelectorSpec, ResourceSpec, annotation_ttl}
use tektoncd_pruner.Config.Select.{match_group, find_by_name, find_by_selector, find_in_specs}
use tektoncd_pruner.Config.Level.{level_by_selector, level_in_specs, level_of_group}
use tektoncd_pruner.Config.Helper.{get_resource_name, get_resource_selectors}

level_of_group-empty :
    (selector : SelectorSpec) (level : Option String) (specs : List SelectorSpec)
    → len selector.match_annotations ≡ 0
    → len selector.match_labels ≡ 0
    → level_of_group selector level specs ≡ none
unfolding level_of_group
level_of_group-empty selector level [] a l = refl
level_of_group-empty selector level (spec ∷ specs) a l =
    ground (arith, level_of_group-empty selector level specs a l)

level_by_selector-empty :
    (selector : SelectorSpec) (specs : List ResourceSpec)
    → len selector.match_annotations ≡ 0
    → len selector.match_labels ≡ 0
    → level_by_selector selector specs ≡ none
unfolding level_by_selector
level_by_selector-empty selector [] a l = refl
level_by_selector-empty selector (spec ∷ specs) a l = ground (
  arith,
  level_of_group-empty selector spec.config.enforced_config_level spec.selector a l,
  level_by_selector-empty selector specs a l,
)

level_in_specs-by_selector :
    (name : String) (selector : SelectorSpec) (specs : List ResourceSpec)
    → (len selector.match_labels ≡ 0 → (name == "") ≡ true)
    → level_in_specs name selector specs ≡ level_by_selector selector specs
unfolding level_in_specs
level_in_specs-by_selector name selector specs h =
    ground (arith, h, level_by_selector-empty selector specs)

len-selector_labels : (m : ObjectMeta) → len (get_resource_selectors m).match_labels ≡ len m.labels
unfolding get_resource_selectors
len-selector_labels m = ground arith

len-selector_annotations :
    (m : ObjectMeta) → len (get_resource_selectors m).match_annotations ≡ len m.annotations
unfolding get_resource_selectors
len-selector_annotations m = ground arith

get_resource_name-unlabelled :
    (m : ObjectMeta) (label_key : String)
    → len m.labels ≡ 0
    → (get_resource_name m label_key == "") ≡ true
unfolding get_resource_name
get_resource_name-unlabelled m label_key h = rw (h, get_resource_name)

-- The level of a group by name is never applied to a run: with the name and the selectors that the
-- handlers pass, the lookup of the level goes by selector alone.
level_by_name_unreachable :
    (m : ObjectMeta) (label_key : String) (specs : List ResourceSpec)
    → level_in_specs (get_resource_name m label_key) (get_resource_selectors m) specs
      ≡ level_by_selector (get_resource_selectors m) specs
level_by_name_unreachable m label_key specs =
    level_in_specs-by_selector (get_resource_name m label_key) (get_resource_selectors m) specs
      λ h. get_resource_name-unlabelled m label_key (sym (len-selector_labels m) ∙ h)

-- Groups that only have a name.
abbrev pub IsNamedOnly : ResourceSpec → Type 0
IsNamedOnly group = group.selector ≡ []

find_by_selector-named :
    (selector : SelectorSpec) (field : PrunerFieldType) (specs : List ResourceSpec)
    → All IsNamedOnly specs
    → find_by_selector selector field specs ≡ (none, "")
unfolding find_by_selector match_group
find_by_selector-named selector field [] h = refl
find_by_selector-named selector field (group ∷ specs) h =
    rw h.0 (find_by_selector-named selector field specs h.1)

find_in_specs-bare :
    (name : String) (selector : SelectorSpec) (field : PrunerFieldType) (specs : List ResourceSpec)
    → (name == "") ≡ false
    → len selector.match_annotations ≡ 0
    → find_in_specs name selector field specs ≡ find_by_name name field specs
unfolding find_in_specs
find_in_specs-bare name selector field specs named bare = ground arith

find_in_specs-annotated :
    (name : String) (selector : SelectorSpec) (field : PrunerFieldType) (specs : List ResourceSpec)
    → 0 < len selector.match_annotations
    → 0 < len selector.match_labels
    → find_in_specs name selector field specs ≡ find_by_selector selector field specs
unfolding find_in_specs
find_in_specs-annotated name selector field specs annotated labelled = ground arith

len-put : (m : Dict String) (k v : String) → 0 < len (put m k v)
unfolding replace
len-put none k v = omega arith
len-put (some []) k v = omega arith
len-put (some ((j, w) ∷ l)) k v = ground arith

-- `m` with the TTL annotation that the TTL handler writes.
abbrev pub with_ttl : ObjectMeta → String → ObjectMeta
with_ttl m value = record m { annotations = put m.annotations annotation_ttl value }

-- A labelled run without annotations is given the setting of its group by name. Once the pruner has
-- written the TTL annotation to it, groups that only have a name give it nothing.
pub named_group_lost :
    (m : ObjectMeta) (label_key value : String) (field : PrunerFieldType)
    (specs : List ResourceSpec)
    → len m.annotations ≡ 0
    → 0 < len m.labels
    → (get_resource_name m label_key == "") ≡ false
    → All IsNamedOnly specs
    → (find_in_specs (get_resource_name m label_key) (get_resource_selectors m) field specs
        ≡ find_by_name (get_resource_name m label_key) field specs)
      × (find_in_specs
            (get_resource_name (with_ttl m value) label_key)
            (get_resource_selectors (with_ttl m value))
            field
            specs
          ≡ (none, ""))
named_group_lost m label_key value field specs bare labelled named only = (
  find_in_specs-bare (get_resource_name m label_key) (get_resource_selectors m) field specs named
      (len-selector_annotations m ∙ bare),
  find_in_specs-annotated (get_resource_name (with_ttl m value) label_key)
        (get_resource_selectors (with_ttl m value)) field specs
        (omega (
          arith,
          len-selector_annotations (with_ttl m value),
          len-put m.annotations annotation_ttl value,
        ))
        (omega (arith, len-selector_labels (with_ttl m value)))
      ∙ find_by_selector-named (get_resource_selectors (with_ttl m value)) field specs only,
)
