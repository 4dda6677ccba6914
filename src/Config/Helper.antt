-- ===== src/Config/Helper.antt =====
-- pkg/config/helper.go.
use tektoncd_pruner.Prelude.{
  String, Bool, true, false, List, [], ◌∷◌, none, ltb, ◌==◌, ◌&&◌, not, if◌then◌else◌,
}
use tektoncd_pruner.Go.Dict.{Dict, len, at, find}
use tektoncd_pruner.Go.Text.{split}
use tektoncd_pruner.Kube.Object.{ObjectMeta}
use tektoncd_pruner.Config.Spec.{annotation_name_label_key, SelectorSpec}
use tektoncd_pruner.Config.Select.{has_entry}

-- `getResourceNameLabelKey`
unfoldable pub get_resource_name_label_key : ObjectMeta → String → String
unfolding find
get_resource_name_label_key m default_label_key =
    if ltb 0 (len m.annotations) && not (at m.annotations annotation_name_label_key == "")
    then at m.annotations annotation_name_label_key
    else default_label_key

-- `getResourceName`
unfoldable pub get_resource_name : ObjectMeta → String → String
unfolding find
get_resource_name m label_key = if ltb 0 (len m.labels) then at m.labels label_key else ""

-- `getResourceSelectors` of ttl_handler.go, which `doResourceCleanup` of history_limiter.go repeats
unfoldable pub get_resource_selectors : ObjectMeta → SelectorSpec
get_resource_selectors m = record {
  match_annotations = if ltb 0 (len m.annotations) then m.annotations else none;
  match_labels = if ltb 0 (len m.labels) then m.labels else none;
}

-- one round of the loop of `MatchLabels`: false is the early return
unfoldable pub pair_matches : Dict String → List String → Bool
unfolding find
pair_matches labels (key ∷ value ∷ []) = has_entry labels key value
pair_matches labels parts = true

unfoldable pub match_pairs : Dict String → List String → Bool
unfolding pair_matches split
match_pairs labels [] = true
match_pairs labels (pair ∷ pairs) =
    let rest = match_pairs labels pairs in
    if pair_matches labels (split b'=' pair) then rest else false

-- `MatchLabels`
unfoldable pub match_labels : Dict String → String → Bool
unfolding match_pairs split
match_labels labels selector = match_pairs labels (split b',' selector)
