-- ===== src/Tests/Requeued.antt =====
-- A run completed at the time 0 that carries a TTL of 60 seconds, on a cluster with its own clock.
use tektoncd_pruner.Prelude.{
  pos, true, false, ◌+ℤ◌, ◌-ℤ◌, ◌<ℤ◌, ◌≤ℤ◌, some, List, keep, not, [], ◌∷◌, ◌≡◌, refl, arith, ◌*◌,
}
use tektoncd_pruner.Go.Dict.{get, find}
use tektoncd_pruner.Go.Decimal.{itoa}
use tektoncd_pruner.Go.Exec.{ok}
use tektoncd_pruner.Go.Time.{Time, second, sub}
use tektoncd_pruner.Kube.Object.{Object, meta, other_object}
use tektoncd_pruner.Config.Spec.{annotation_ttl, level_global}
use tektoncd_pruner.World.{World}
use tektoncd_pruner.Ttl.Annotation.{TtlHandler}
use tektoncd_pruner.Ttl.Event.{remove_resource}
use tektoncd_pruner.History.Enforcement.{has_key}
use tektoncd_pruner.Ttl.Removal.{HasTtl, expire_time, early_run_is_requeued}
use tektoncd_pruner.Ttl.Requeued.{IsRemover, LeavesNone, requeued_run_is_deleted}
use tektoncd_pruner.Tests.Fixture.{platform, world_of, meta_of}

abbrev one_minute : Object
one_minute =
    other_object (record (meta_of "a" 1) { annotations = some ((annotation_ttl, "60") ∷ []) })

-- the time, and the runs that are there
abbrev Cluster : Type 0
Cluster = Time × List Object

abbrev handler : TtlHandler (World Cluster)
handler = record {
  clock = λ w. (w.cluster.0, w);
  resource_fn = record {
    type = "PipelineRun";
    get = λ namespace name w. (ok one_minute, w);
    delete = λ namespace name w. (
      ok tt,
      record w { cluster = (w.cluster.0, keep (λ o. not (has_key namespace name o)) w.cluster.1) },
    );
    patch = λ namespace name patch w. (ok tt, w);
    update = λ o w. (ok tt, w);
    is_completed = λ o. true;
    get_completion_time = λ o. ok (pos 0);
    ignore = λ o. false;
    get_ttl_seconds_after_finished =
        λ namespace name selector w. (some (pos 60), "identified_by_global");
    get_default_label_key = "tekton.dev/pipeline";
    get_enforced_config_level = λ namespace name selector w. level_global;
  };
}

minute_text : get (meta one_minute).annotations annotation_ttl ≡ some (itoa (pos 60))
unfolding find itoa
minute_text = refl

one_minute-HasTtl : HasTtl handler.resource_fn one_minute (pos 0) 60
one_minute-HasTtl = record {
  live = refl;
  completed = refl;
  finished = refl;
  annotated = minute_text;
  fits = omega arith;
}

-- 20 and 60 seconds after the completion
abbrev at_first : World Cluster
at_first = world_of (pos (20 * second), one_minute ∷ [])

abbrev at_last : World Cluster
at_last = world_of (pos (60 * second), one_minute ∷ [])

too_early : at_first.cluster.0 <ℤ expire_time (pos 0) 60
too_early = unfold ◌+ℤ◌ in omega arith

long_enough :
    at_first.cluster.0 +ℤ sub (expire_time (pos 0) 60) at_first.cluster.0 ≤ℤ at_last.cluster.0
unfolding sub ◌-ℤ◌ ◌+ℤ◌
long_enough = omega arith

abbrev runs_there : Cluster → List Object
runs_there s = s.1

deletions_remove : IsRemover platform handler runs_there
deletions_remove = record { succeeds = λ namespace name w. tt; removes = λ namespace name w. refl }

requeued_run_is_deleted_example :
    LeavesNone platform handler runs_there "ns" "a"
      (remove_resource platform handler one_minute at_last)
requeued_run_is_deleted_example =
    requeued_run_is_deleted platform handler one_minute (pos 0) 60 one_minute-HasTtl at_first
      (omega arith) too_early runs_there at_last deletions_remove
      (early_run_is_requeued platform handler one_minute (pos 0) 60 one_minute-HasTtl at_first
        too_early)
      long_enough refl one_minute-HasTtl (omega arith)
