-- ===== src/Tests/Cluster.antt =====
-- A cluster of PipelineRuns in memory, under a configuration that keeps one successful run.
use tektoncd_pruner.Prelude.{
  String, ℕ, pos, Bool, not, none, some, List, [], ◌∷◌, refl, keep, ◌==◌, AllApart,
}
use tektoncd_pruner.Go.Exec.{ok}
use tektoncd_pruner.Kube.Object.{PipelineRun}
use tektoncd_pruner.Kube.Api.{Platform}
use tektoncd_pruner.Config.Spec.{empty_config, level_global}
use tektoncd_pruner.Metrics.{new_recorder}
use tektoncd_pruner.World.{World}
use tektoncd_pruner.History.Enforcement.{same_key}
use tektoncd_pruner.History.Retained.{IsRetained, exactly_newest_remain}
use tektoncd_pruner.Runs.Enforced.{has_run_key}
use tektoncd_pruner.Tests.Fixture.{
  platform, no_client, meta_of, memory_limiter, memory_laws, runs, in_namespace, three_runs,
}
use tektoncd_pruner.Tests.History.{all_runs, busy_world, pruned, prune_to_three}
use tektoncd_pruner.Tests.Runs.{decided}

abbrev pub cluster_platform : Platform (List PipelineRun)
cluster_platform = record platform {
  pipeline_runs = record no_client {
    list = λ namespace selector s. (ok (keep (λ pr. pr.metadata.namespace == namespace) s), s);
    delete = λ namespace name s. (ok tt, keep (λ pr. not (has_run_key namespace name pr)) s);
  };
}

abbrev pub all_of : List PipelineRun → List PipelineRun
all_of s = s

abbrev pub of_namespace : String → String → PipelineRun → Bool
of_namespace namespace selector pr = pr.metadata.namespace == namespace

abbrev pub build_of : String → ℕ → PipelineRun
build_of name created = record {
  metadata = meta_of name created;
  spec_status = "";
  status = decided;
}

abbrev pub builds : World (List PipelineRun)
builds = record {
  cluster = build_of "a" 1 ∷ build_of "b" 3 ∷ build_of "c" 2 ∷ [];
  store = record {
    global_config = record {
      config = record empty_config {
        enforced_config_level = some level_global;
        successful_history_limit = some (pos 1);
      };
      namespaces = none;
    };
  };
  recorder = new_recorder;
}

three_apart : AllApart same_key three_runs
three_apart = ((refl, (refl, tt)), ((refl, tt), (tt, tt)))

exactly_newest_remain_example :
    IsRetained 1
      (keep all_runs (keep (in_namespace "ns" "") three_runs))
      (keep all_runs (keep (in_namespace "ns" "") pruned.cluster))
exactly_newest_remain_example =
    exactly_newest_remain platform memory_limiter runs in_namespace memory_laws "ns" "" all_runs 1
      busy_world three_apart prune_to_three
