-- ===== src/Tests/History.antt =====
-- Concrete inputs for the theorems on the history limiter.
use mathlib.Core.List.{Permᴰ, ◌++◌}
use tektoncd_pruner.Prelude.{
  String, none, ◌≤◌, pos, Bool, true, some, List, [], ◌∷◌, ◌≡◌, refl, length, min, keep, All,
}
use tektoncd_pruner.Go.Dict.{Dict}
use tektoncd_pruner.Go.Exec.{ok}
use tektoncd_pruner.Kube.Object.{Object}
use tektoncd_pruner.Config.Spec.{
  level_global, level_resource, identified_by_annotation, annotation_successful_limit,
}
use tektoncd_pruner.Config.Select.{Found}
use tektoncd_pruner.World.{World}
use tektoncd_pruner.History.Limit.{select_for_deletion, choose_limit}
use tektoncd_pruner.History.Cleanup.{prune_to, do_resource_cleanup}
use tektoncd_pruner.History.Selection.{AsNew, kept, newest_are_kept}
use tektoncd_pruner.History.Enforcement.{is_none_of, selection, prune_to_exact}
use tektoncd_pruner.History.Bounds.{remaining, cleanup_enforces_limit, selector_for}
use tektoncd_pruner.Tests.Fixture.{
  platform, world_of, run_of, in_namespace, limit_one, memory_limiter, runs, memory_laws,
  three_runs,
}

abbrev pub all_runs : Object → Bool
all_runs o = true

selected : select_for_deletion all_runs 1 three_runs ≡ run_of "c" 2 ∷ run_of "a" 1 ∷ []
unfolding select_for_deletion
selected = refl

newest_are_kept_example :
    Permᴰ
      (kept all_runs 1 three_runs ++ select_for_deletion all_runs 1 three_runs)
      (keep all_runs three_runs)
    × (length (kept all_runs 1 three_runs) ≡ min 1 (length (keep all_runs three_runs)))
    × All
        (λ k. All (AsNew k) (select_for_deletion all_runs 1 three_runs))
        (kept all_runs 1 three_runs)
newest_are_kept_example = newest_are_kept all_runs 1 three_runs

abbrev pub busy_world : World (List Object)
busy_world = world_of three_runs

abbrev pub pruned : World (List Object)
pruned = (prune_to platform memory_limiter "ns" "" all_runs (some 1) busy_world).1

pub prune_to_three :
    prune_to platform memory_limiter "ns" "" all_runs (some 1) busy_world ≡ (ok tt, pruned)
unfolding prune_to
prune_to_three = refl

prune_to_exact_example :
    pruned.cluster
    ≡ keep
        (is_none_of (
          selection platform memory_limiter runs in_namespace memory_laws "ns" "" all_runs 1
            three_runs))
        three_runs
prune_to_exact_example =
    prune_to_exact platform memory_limiter runs in_namespace memory_laws "ns" "" all_runs 1
      busy_world prune_to_three

abbrev cleaned : World (List Object)
cleaned =
    (do_resource_cleanup platform memory_limiter (run_of "b" 3) annotation_successful_limit
      limit_one all_runs busy_world).1

cleaned_three :
    do_resource_cleanup platform memory_limiter
      (run_of "b" 3)
      annotation_successful_limit
      limit_one
      all_runs
      busy_world
    ≡ (ok tt, cleaned)
unfolding do_resource_cleanup
cleaned_three = refl

cleanup_enforces_limit_example :
    (by : String) × (choose_limit level_global none annotation_successful_limit
        (some (pos 1), "identified_by_global")
      ≡ ok (some (pos 1), by))
    × (length (
          remaining platform memory_limiter runs in_namespace memory_laws
            (run_of "b" 3)
            all_runs
            busy_world
            (selector_for platform memory_limiter runs in_namespace memory_laws
              (run_of "b" 3)
              all_runs
              busy_world
              level_global
              by)
            cleaned)
        ≤ 1)
cleanup_enforces_limit_example =
    cleanup_enforces_limit platform memory_limiter runs in_namespace memory_laws (run_of "b" 3)
      all_runs busy_world annotation_successful_limit limit_one 1 refl cleaned_three

abbrev limited_annotations : Dict String
limited_annotations = some ((annotation_successful_limit, "1") ∷ [])

abbrev configured : Found
configured = (some (pos 1), "identified_by_ns")

chosen :
    choose_limit level_resource limited_annotations annotation_successful_limit configured
    ≡ ok (some (pos 1), identified_by_annotation)
unfolding choose_limit
chosen = refl
