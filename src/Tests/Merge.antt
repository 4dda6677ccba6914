-- ===== src/Tests/Merge.antt =====
-- A JSON merge patch of annotations, entry by entry.
use tektoncd_pruner.Prelude.{String, none, some, List, [], ◌∷◌, ◌≡◌, refl, ◌∙◌, arith}
use tektoncd_pruner.Go.Dict.{Dict, find, replace, find-replace, entries}
use tektoncd_pruner.Ttl.Written.{IsMergePatch}

pub merge_entries : List (String × String) → List (String × String) → List (String × String)
merge_entries a [] = a
merge_entries a ((k, v) ∷ d) = replace k v (merge_entries a d)

abbrev pub merge : Dict String → Dict String → Dict String
merge a d = some (merge_entries (entries a) (entries d))

find-merge_entries :
    (a d : List (String × String)) (k : String)
    → find k (merge_entries a d) ≡ (elim (find k d) [ none ↦ find k a | some v ↦ some v ])
unfolding merge_entries find
find-merge_entries a [] k = refl
find-merge_entries a ((j, v) ∷ d) k =
    ground (arith, find-replace j k v (merge_entries a d), find-merge_entries a d k)

pub merge-IsMergePatch : IsMergePatch merge
merge-IsMergePatch = record {
  given = λ a d k v e. find-merge_entries (entries a) (entries d) k ∙ rw e refl;
  others = λ a d k e. find-merge_entries (entries a) (entries d) k ∙ rw e refl;
}
