-- ===== src/Tests/Expired.antt =====
-- A PipelineRun in memory whose TTL is over, and its reconciliation.
use tektoncd_pruner.Prelude.{pos, none, some, List, [], ◌∷◌, ◌≡◌, ◌+ℤ◌, refl, ap, arith, keep}
use tektoncd_pruner.Go.Dict.{find}
use tektoncd_pruner.Go.Decimal.{itoa}
use tektoncd_pruner.Go.Exec.{Result, ok}
use tektoncd_pruner.Kube.Object.{PipelineRun, pipeline_run}
use tektoncd_pruner.Config.Spec.{annotation_ttl, annotation_processed, empty_config, level_global}
use tektoncd_pruner.Config.Level.{get_pipeline_enforced_config_level}
use tektoncd_pruner.Config.Store.{get_pipeline_ttl_seconds_after_finished}
use tektoncd_pruner.Metrics.{new_recorder}
use tektoncd_pruner.World.{World}
use tektoncd_pruner.History.Event.{is_processed}
use tektoncd_pruner.Ttl.Annotation.{configured_ttl}
use tektoncd_pruner.Ttl.Removal.{HasTtl}
use tektoncd_pruner.Runs.PipelineRuns.{pr_ttl_funcs, pr_is_completed, pr_completion_time}
use tektoncd_pruner.Runs.States.{pr_limiter, pr_handler}
use tektoncd_pruner.Runs.Reconcile.{reconcile_pipeline_run}
use tektoncd_pruner.Runs.Enforced.{has_run_key}
use tektoncd_pruner.Runs.Expired.{IsExpired}
use tektoncd_pruner.Runs.Removed.{reconciliation_removes_expired}
use tektoncd_pruner.Tests.Fixture.{meta_of}
use tektoncd_pruner.Tests.Cluster.{all_of, of_namespace, build_of}
use tektoncd_pruner.Tests.Reconciled.{find_run, full_platform, full_laws}
use tektoncd_pruner.Tests.Collected.{deletions_succeed}
use tektoncd_pruner.Tests.Runs.{decided}

-- Completed at the time 0, marked as processed, and with a TTL of 60 seconds.
abbrev expiring : PipelineRun
expiring = record {
  metadata = record (meta_of "a" 1) {
    annotations = some ((annotation_processed, "12:00") ∷ (annotation_ttl, "60") ∷ []);
  };
  spec_status = "";
  status = record decided { completion_time = some (pos 0) };
}

expiring-HasTtl : HasTtl (pr_ttl_funcs full_platform) (pipeline_run expiring) (pos 0) 60
unfolding pr_is_completed pr_completion_time find itoa
expiring-HasTtl = record {
  live = refl;
  completed = refl;
  finished = refl;
  annotated = refl;
  fits = omega arith;
}

abbrev stored : List PipelineRun
stored = expiring ∷ build_of "c" 2 ∷ []

abbrev IsStored : List PipelineRun → Type 0
IsStored s = s ≡ stored

expiring-IsExpired : IsExpired full_platform IsStored expiring (pos 0) 60
expiring-IsExpired = record {
  later = λ s here. here;
  over = λ s here. unfold ◌+ℤ◌ in omega arith;
  stored = λ s here. (expiring, s, ap (λ l. (find_run "ns" "a" l, s)) here, expiring-HasTtl, here);
}

abbrev sixty_seconds : World (List PipelineRun)
sixty_seconds = record {
  cluster = stored;
  store = record {
    global_config = record {
      config = record empty_config {
        enforced_config_level = some level_global;
        ttl_seconds_after_finished = some (pos 60);
      };
      namespaces = none;
    };
  };
  recorder = new_recorder;
}

abbrev reconciled : Result (Unit {0}) × World (List PipelineRun)
reconciled =
    reconcile_pipeline_run full_platform (pr_limiter full_platform) (pr_handler full_platform)
      expiring sixty_seconds

reconciliation_removes_expired_example :
    (reconciled.0 ≡ ok tt) × (keep (has_run_key "ns" "a") reconciled.1.cluster ≡ [])
unfolding is_processed configured_ttl get_pipeline_ttl_seconds_after_finished
    get_pipeline_enforced_config_level find
reconciliation_removes_expired_example =
    reconciliation_removes_expired full_platform all_of of_namespace full_laws deletions_succeed
      IsStored expiring (pos 0) 60 expiring-IsExpired expiring-HasTtl sixty_seconds refl refl refl
