-- ===== src/Tests/Process.antt =====
-- What the process itself keeps: a ConfigMap that cannot be read and one that can, and the events of
-- a reconciliation. The cluster is the text of the ConfigMap.
use tektoncd_pruner.Prelude.{String, pos, some, [], ◌∷◌, ◌≡◌, refl, ◌==◌, if◌then◌else◌}
use tektoncd_pruner.Go.Exec.{ok, err, errorf}
use tektoncd_pruner.Kube.Object.{PipelineRun}
use tektoncd_pruner.Config.Spec.{GlobalConfig, empty_config}
use tektoncd_pruner.World.{World}
use tektoncd_pruner.Runs.Reconcile.{reconcile_pipeline_run}
use tektoncd_pruner.Runs.States.{pr_limiter, pr_handler}
use tektoncd_pruner.Pruner.Namespaces.{CoreClient, prepare_collection}
use tektoncd_pruner.Safety.System.{config_event, pipeline_event}
use tektoncd_pruner.Safety.Settings.{Trace, InForce, begins, acts, outside, configuration_was_read}
use tektoncd_pruner.Safety.Events.{events, EventTold, reconciliation_is_reported_once}
use tektoncd_pruner.Metrics.Laws.{processed_count, distinct_uids}
use tektoncd_pruner.Safety.Processed.{reconciliations, each_resource_is_counted_once}
use tektoncd_pruner.Tests.Fixture.{platform, world_of, meta_of}
use tektoncd_pruner.Tests.Runs.{decided}

abbrev keeps_three : GlobalConfig
keeps_three = record {
  config = record empty_config { history_limit = some (pos 3) };
  namespaces = some [];
}

abbrev core : CoreClient String
core = record {
  get_config_map = λ s. (ok (some (("global-config", s) ∷ [])), s);
  list_namespaces = λ s. (ok ("ns" ∷ []), s);
  getenv = λ key. "";
  unmarshal = λ text. if text == "historyLimit: 3" then ok keeps_three else err (errorf "yaml");
}

abbrev before : World String
before = world_of "historyLimit: three"

-- It cannot be read: the configuration stays.
abbrev rejected : World String
rejected = (prepare_collection platform core before).1

bad_text_changes_nothing : rejected.store ≡ before.store
unfolding prepare_collection
bad_text_changes_nothing = refl

abbrev corrected : World String
corrected = (prepare_collection platform core (record rejected { cluster = "historyLimit: 3" })).1

corrected_is_loaded : corrected.store.global_config ≡ keeps_three
unfolding prepare_collection
corrected_is_loaded = refl

abbrev build : PipelineRun
build = record { metadata = meta_of "build" 1; spec_status = ""; status = decided }

abbrev reconciled : World String
reconciled =
    (reconcile_pipeline_run platform (pr_limiter platform) (pr_handler platform) build corrected).1

abbrev history : Trace platform core before reconciled
history =
    acts (acts (outside "historyLimit: 3" (acts begins config_event)) config_event)
      (pipeline_event build)

configuration_was_read_example : InForce platform core history reconciled.store
configuration_was_read_example = configuration_was_read platform core history

reconciliation_is_reported_once_example :
    EventTold platform "pipelinerun" "ns"
      (events before.recorder.measurements)
      (reconcile_pipeline_run platform (pr_limiter platform) (pr_handler platform) build before)
reconciliation_is_reported_once_example = reconciliation_is_reported_once platform build before

-- The same run twice, and another one.
abbrev other_build : PipelineRun
other_build = record build { metadata = meta_of "other" 2 }

each_resource_is_counted_once_example :
    processed_count
      (reconciliations platform (build ∷ other_build ∷ build ∷ []) before).recorder.measurements
    ≡ pos 2
unfolding distinct_uids
each_resource_is_counted_once_example =
    each_resource_is_counted_once platform (build ∷ other_build ∷ build ∷ []) before refl
