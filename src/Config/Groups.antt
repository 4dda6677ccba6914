-- ===== src/Config/Groups.antt =====
-- How a run meets the groups of its namespace by selector (config.go).
use mathlib.Core.List.{Memᴰ}
use tektoncd_pruner.Prelude.{
  String, ℤ, ◌≡◌, refl, ◌∙◌, subst, Bool, true, false, Option, none, some, List, [], ◌∷◌, ◌++◌,
  arith, if◌then◌else◌, ◌||◌, any, All,
}
use tektoncd_pruner.Go.Dict.{Dict, get, entries}
use tektoncd_pruner.Config.Spec.{
  PrunerFieldType, failed_limit, PrunerConfig, SelectorSpec, ResourceSpec,
}
use tektoncd_pruner.Config.Select.{
  all_match, annotations_match, labels_match, match_group, find_by_selector, field_by_selector,
}

-- Some selector of the group meets the run's annotations or its labels.
abbrev pub group_matches : SelectorSpec → ResourceSpec → Bool
group_matches selector group =
    any (λ spec. annotations_match selector spec || labels_match selector spec) group.selector

abbrev pub found_field : Option (Option ℤ × String) → Option (Option ℤ)
found_field none = none
found_field (some f) = some f.0

pub match_group_matches :
    (selector : SelectorSpec) (c : PrunerConfig) (field : PrunerFieldType)
    (specs : List SelectorSpec)
    → found_field (match_group selector c field specs) ≡ (
        if any (λ spec. annotations_match selector spec || labels_match selector spec) specs
        then some (field_by_selector c field)
        else none)
unfolding match_group
match_group_matches selector c field [] = refl
match_group_matches selector c field (spec ∷ specs) =
    ground (arith, match_group_matches selector c field specs)

-- Of the groups that a run matches by selector the first one gives the setting.
first_matching_group_wins :
    (selector : SelectorSpec) (field : PrunerFieldType) (before : List ResourceSpec)
    (group : ResourceSpec) (behind : List ResourceSpec)
    → All (λ g. group_matches selector g ≡ false) before
    → group_matches selector group ≡ true
    → (find_by_selector selector field (before ++ group ∷ behind)).0
      ≡ field_by_selector group.config field
unfolding find_by_selector
first_matching_group_wins selector field [] group behind none_before matches =
    ground (arith, match_group_matches selector group.config field group.selector)
first_matching_group_wins selector field (g ∷ before) group behind none_before matches = ground (
  arith,
  match_group_matches selector g.config field g.selector,
  none_before.0,
  first_matching_group_wins selector field before group behind none_before.1 matches,
)

-- The limit of failed runs of a group that sets no limit of successful ones is its `historyLimit`,
-- whatever its `failedHistoryLimit`.
pub group_failed_limit_ignored :
    (selector : SelectorSpec) (before : List ResourceSpec) (group : ResourceSpec)
    (behind : List ResourceSpec)
    → All (λ g. group_matches selector g ≡ false) before
    → group_matches selector group ≡ true
    → group.config.successful_history_limit ≡ none
    → (find_by_selector selector failed_limit (before ++ group ∷ behind)).0
      ≡ group.config.history_limit
group_failed_limit_ignored selector before group behind none_before matches unset =
    first_matching_group_wins selector failed_limit before group behind none_before matches
    ∙ ground arith

-- A member whose key is missing from a selector defeats the test of that selector.
all_match_missing :
    (xs : List (String × String)) (m : Dict String) {k v : String}
    → Memᴰ (k, v) xs
    → get m k ≡ none
    → all_match xs m ≡ false
unfolding all_match
all_match_missing [] m h missing = elim h [ ]
all_match_missing (e ∷ xs) m (Memᴰ.head here) missing =
    subst (λ p. all_match (p ∷ xs) m ≡ false) here (ground arith)
all_match_missing ((j, w) ∷ xs) m (Memᴰ.tail h) missing =
    ground (arith, all_match_missing xs m h missing)

-- The selector names neither the annotation `k` nor the label `j`.
abbrev pub Lacks : String → String → SelectorSpec → Type 0
Lacks k j spec = (get spec.match_annotations k ≡ none) × (get spec.match_labels j ≡ none)

group_matches-Lacks :
    (selector : SelectorSpec) (specs : List SelectorSpec) {k v j w : String}
    → Memᴰ (k, v) (entries selector.match_annotations)
    → Memᴰ (j, w) (entries selector.match_labels)
    → All (Lacks k j) specs
    → any (λ spec. annotations_match selector spec || labels_match selector spec) specs ≡ false
group_matches-Lacks selector [] a l h = refl
group_matches-Lacks selector (spec ∷ specs) a l h = ground (
  arith,
  all_match_missing (entries selector.match_annotations) spec.match_annotations a h.0.0,
  all_match_missing (entries selector.match_labels) spec.match_labels l h.0.1,
  group_matches-Lacks selector specs a l h.1,
)

-- A run with an annotation and a label that no selector names is in no group by selector, also
-- where it has every entry that some selector asks for.
pub extra_entries_defeat_groups :
    (selector : SelectorSpec) (field : PrunerFieldType) (specs : List ResourceSpec)
    {k v j w : String}
    → Memᴰ (k, v) (entries selector.match_annotations)
    → Memᴰ (j, w) (entries selector.match_labels)
    → All (λ group. All (Lacks k j) group.selector) specs
    → (find_by_selector selector field specs).0 ≡ none
unfolding find_by_selector
extra_entries_defeat_groups selector field [] a l h = refl
extra_entries_defeat_groups selector field (group ∷ specs) a l h = ground (
  arith,
  match_group_matches selector group.config field group.selector,
  group_matches-Lacks selector group.selector a l h.0,
  extra_entries_defeat_groups selector field specs a l h.1,
)
