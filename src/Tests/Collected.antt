-- ===== src/Tests/Collected.antt =====
-- A cluster of PipelineRuns in memory and the garbage collection of a namespace.
use tektoncd_pruner.Prelude.{String, ◌≤◌, pos, some, List, [], ◌∷◌, ◌≡◌, refl, length}
use tektoncd_pruner.Kube.Object.{PipelineRun}
use tektoncd_pruner.Config.Level.{get_pipeline_enforced_config_level}
use tektoncd_pruner.World.{World}
use tektoncd_pruner.Config.Store.{
  get_pipeline_success_history_limit_count, get_pipeline_ttl_seconds_after_finished,
}
use tektoncd_pruner.History.Event.{is_processed}
use tektoncd_pruner.Runs.PipelineRuns.{
  pr_list, pr_delete, pr_get, pr_patch, pr_is_completed, pr_is_successful,
}
use tektoncd_pruner.History.Enforcement.{Gone}
use tektoncd_pruner.Runs.States.{pr_limiter}
use tektoncd_pruner.Runs.Enforced.{success}
use tektoncd_pruner.Pruner.Collect.{collect_namespace}
use tektoncd_pruner.Safety.Collected.{collection_enforces_limit}
use tektoncd_pruner.Safety.Enforced.{runs_of, IsNew}
use tektoncd_pruner.Tests.Cluster.{all_of, of_namespace, builds, build_of}
use tektoncd_pruner.Tests.Reconciled.{full_platform, full_laws, full_cluster, newest}

-- The newest run of `builds`, with a time of completion, and its garbage collection.
abbrev pub ended : PipelineRun
ended = record newest { status = record newest.status { completion_time = some (pos 6) } }

abbrev pub ended_builds : World (List PipelineRun)
ended_builds = record builds { cluster = build_of "a" 1 ∷ ended ∷ build_of "c" 2 ∷ [] }

collected_is_newest :
    (collect_namespace full_platform "12:00" "ns" ended_builds).cluster ≡ ended ∷ []
unfolding collect_namespace pr_is_completed pr_is_successful get_pipeline_enforced_config_level
    get_pipeline_success_history_limit_count pr_list pr_delete pr_get pr_patch
    get_pipeline_ttl_seconds_after_finished
collected_is_newest = refl

pub ended-IsNew : IsNew full_platform all_of of_namespace full_laws success ended
unfolding is_processed pr_is_completed pr_is_successful
ended-IsNew = record { live = refl; unprocessed = refl; completed = refl; ended = refl }

pub deletions_succeed :
    (namespace name : String) (w : World (List PipelineRun))
    → Gone full_platform (pr_limiter full_platform) (pr_delete full_platform namespace name w).0
unfolding pr_delete
deletions_succeed namespace name w = tt

collection_enforces_limit_example :
    length (
      runs_of full_platform all_of of_namespace full_laws success "ns"
        (collect_namespace full_platform "12:00" "ns" ended_builds).cluster)
    ≤ 1
unfolding get_pipeline_enforced_config_level get_pipeline_success_history_limit_count
collection_enforces_limit_example =
    collection_enforces_limit full_platform all_of of_namespace full_laws deletions_succeed success
      ended 1 full_cluster "12:00" ended_builds (build_of "a" 1 ∷ []) (build_of "c" 2 ∷ []) refl
      refl ended-IsNew refl refl
