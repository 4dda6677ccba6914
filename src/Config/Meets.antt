-- ===== src/Config/Meets.antt =====
-- The loops of config.go over the entries of a run, against the tests of the reference.
use tektoncd_pruner.Prelude.{String, not, ◌||◌, none, some, List, [], ◌∷◌, ◌≡◌, refl, any, arith}
use tektoncd_pruner.Go.Dict.{Dict, entries}
use tektoncd_pruner.Config.Spec.{SelectorSpec, ResourceSpec}
use tektoncd_pruner.Config.Select.{all_match, annotations_match, labels_match, is_empty}
use tektoncd_pruner.Config.Groups.{group_matches}
use tektoncd_pruner.Config.Reference.{is_bare, has_pair, is_covered, meets}

pub is_empty-eq-is_bare : (m : Dict String) → is_empty m ≡ is_bare m
is_empty-eq-is_bare none = refl
is_empty-eq-is_bare (some []) = refl
is_empty-eq-is_bare (some (e ∷ rest)) = ground arith

all_match-any :
    (xs : List (String × String)) (m : Dict String)
    → all_match xs m ≡ not (any (λ e. not (has_pair m e)) xs)
unfolding all_match
all_match-any [] m = refl
all_match-any ((key, value) ∷ rest) m = ground (arith, all_match-any rest m)

any_meets :
    (selector : SelectorSpec) (specs : List SelectorSpec)
    → any (λ spec. annotations_match selector spec || labels_match selector spec) specs
      ≡ any
          (λ spec.
            is_covered selector.match_annotations spec.match_annotations
            || is_covered selector.match_labels spec.match_labels)
          specs
any_meets selector [] = refl
any_meets selector (spec ∷ specs) = ground (
  arith,
  is_empty-eq-is_bare selector.match_annotations,
  is_empty-eq-is_bare selector.match_labels,
  all_match-any (entries selector.match_annotations) spec.match_annotations,
  all_match-any (entries selector.match_labels) spec.match_labels,
  any_meets selector specs,
)

pub group_matches-eq-meets :
    (selector : SelectorSpec) (group : ResourceSpec)
    → group_matches selector group ≡ meets selector group
group_matches-eq-meets selector group = any_meets selector group.selector
