-- ===== src/Tests/Selectors.antt =====
-- Labels at which the theorem on the label selector of a cleanup applies.
use tektoncd_pruner.Prelude.{String, some, [], ◌∷◌, ◌≡◌, refl, All, false}
use tektoncd_pruner.Go.Dict.{Dict, entries}
use tektoncd_pruner.Go.Text.Laws.{lacks}
use tektoncd_pruner.Kube.Object.{ObjectMeta}
use tektoncd_pruner.Config.Spec.{level_resource, identified_by_label}
use tektoncd_pruner.Config.Select.{all_match}
use tektoncd_pruner.Config.Helper.{match_labels}
use tektoncd_pruner.History.Limit.{list_selector}
use tektoncd_pruner.History.Selectors.{IsPlain, list_selector_means_all_labels}
use tektoncd_pruner.Tests.Fixture.{meta_of}

abbrev web : ObjectMeta
web = record (meta_of "web" 1) { labels = some (("app", "web") ∷ ("tier", "front") ∷ []) }

abbrev other_labels : Dict String
other_labels = some (("tier", "back") ∷ ("app", "web") ∷ [])

selector_text :
    list_selector level_resource identified_by_label "app" "web" web ≡ "app=web,tier=front"
unfolding list_selector
selector_text = refl

-- The other tier is not selected.
other_not_selected : match_labels other_labels "app=web,tier=front" ≡ false
unfolding match_labels
other_not_selected = refl

web-IsPlain : All IsPlain (entries web.labels)
unfolding lacks
web-IsPlain = ((refl, refl, refl, refl), ((refl, refl, refl, refl), tt))

list_selector_means_all_labels_example :
    match_labels other_labels (list_selector level_resource identified_by_label "app" "web" web)
    ≡ all_match (entries web.labels) other_labels
list_selector_means_all_labels_example =
    list_selector_means_all_labels "app" "web" web other_labels web-IsPlain
