-- ===== src/Tests/Ttl.antt =====
-- Concrete inputs for the theorems on the TTL handler.
use tektoncd_pruner.Prelude.{
  String, ◌*◌, ℤ, pos, ◌+ℤ◌, ◌<ℤ◌, ◌≤ℤ◌, true, false, Option, none, some, [], ◌∷◌, ◌≡◌, ◌≢◌, refl,
  arith,
}
use tektoncd_pruner.Go.Dict.{get, find}
use tektoncd_pruner.Go.Exec.{ok, err, wrap, requeue_after, nil_dereference}
use tektoncd_pruner.Go.Decimal.{itoa}
use tektoncd_pruner.Go.Time.{Time, second, sub}
use tektoncd_pruner.Kube.Object.{Object, ObjectMeta, meta, other_object}
use tektoncd_pruner.Config.Spec.{annotation_ttl, level_global}
use tektoncd_pruner.World.{World}
use tektoncd_pruner.Ttl.Annotation.{
  TtlResourceFuncs, TtlHandler, configured_ttl, needs_ttl_update, update_annotation_ttl_seconds,
}
use tektoncd_pruner.Ttl.Expiry.{get_ttl_seconds, process_ttl}
use tektoncd_pruner.Ttl.Event.{remove_resource}
use tektoncd_pruner.Ttl.Written.{
  with_stored, written_ttl_is_read, update-settles, stale_ttl_survives,
}
use tektoncd_pruner.Ttl.Removal.{
  HasTtl, expire_time, verdict, process_ttl_exact, early_run_is_requeued, fresh_ttl_is_respected,
}
use tektoncd_pruner.Ttl.Limits.{huge_ttl_expires_at_once}
use tektoncd_pruner.Tests.Fixture.{platform, world_of, meta_of, noon}
use tektoncd_pruner.Tests.Merge.{merge, merge-IsMergePatch}

-- A run that carries a TTL.
abbrev with_text : String → Object
with_text text =
    other_object (record (meta_of "a" 1) { annotations = some ((annotation_ttl, text) ∷ []) })

-- The cluster is the run that a read returns. Every run is completed at the time 0.
abbrev funcs : Option ℤ → TtlResourceFuncs (World Object)
funcs ttl = record {
  type = "PipelineRun";
  get = λ namespace name w. (ok w.cluster, w);
  delete = λ namespace name w. (ok tt, w);
  patch = λ namespace name patch w. (ok tt, w);
  update = λ o w. (ok tt, w);
  is_completed = λ o. true;
  get_completion_time = λ o. ok (pos 0);
  ignore = λ o. false;
  get_ttl_seconds_after_finished = λ namespace name selector w. (ttl, "identified_by_global");
  get_default_label_key = "tekton.dev/pipeline";
  get_enforced_config_level = λ namespace name selector w. level_global;
}

abbrev handler : TtlHandler (World Object)
handler = record { clock = λ w. (noon, w); resource_fn = funcs (some (pos 60)) }

-- At noon a TTL of 60 seconds is over, and one of 43201 is not.
abbrev short_run : Object
short_run = with_text "60"

abbrev long_run : Object
long_run = with_text "43201"

short_text : get (meta short_run).annotations annotation_ttl ≡ some (itoa (pos 60))
unfolding find itoa
short_text = refl

long_text : get (meta long_run).annotations annotation_ttl ≡ some (itoa (pos 43201))
unfolding find itoa
long_text = refl

short_HasTtl : HasTtl (funcs (some (pos 60))) short_run (pos 0) 60
short_HasTtl = record {
  live = refl;
  completed = refl;
  finished = refl;
  annotated = short_text;
  fits = omega arith;
}

long_HasTtl : HasTtl (funcs (some (pos 60))) long_run (pos 0) 43201
long_HasTtl = record {
  live = refl;
  completed = refl;
  finished = refl;
  annotated = long_text;
  fits = omega arith;
}

abbrev short_world : World Object
short_world = world_of short_run

abbrev long_world : World Object
long_world = world_of long_run

short_due : expire_time (pos 0) 60 ≤ℤ noon
short_due = unfold ◌+ℤ◌ in omega arith

long_early : noon <ℤ expire_time (pos 0) 43201
long_early = unfold ◌+ℤ◌ in omega arith

process_ttl_exact_example :
    process_ttl handler short_run short_world ≡ (verdict (expire_time (pos 0) 60) noon, short_world)
process_ttl_exact_example = process_ttl_exact handler short_run (pos 0) 60 short_HasTtl short_world

early_run_is_requeued_example : remove_resource platform handler long_run long_world ≡ (
  err (wrap "failed to process TTL" (requeue_after (sub (expire_time (pos 0) 43201) noon))),
  long_world,
)
early_run_is_requeued_example =
    early_run_is_requeued platform handler long_run (pos 0) 43201 long_HasTtl long_world long_early

fresh_ttl_is_respected_example : remove_resource platform handler short_run long_world ≡ (
  err (
      wrap "failed to process TTL for fresh resource"
        (requeue_after (sub (expire_time (pos 0) 43201) noon))),
  long_world,
)
fresh_ttl_is_respected_example =
    fresh_ttl_is_respected platform handler short_run (pos 0) 60 short_HasTtl long_world short_due
      long_run long_world refl (pos 0) 43201 long_HasTtl long_early

written_ttl_is_read_example :
    get_ttl_seconds (with_stored merge merge-IsMergePatch (some (pos 60)) (meta long_run))
    ≡ ok (some (pos (60 * second)))
written_ttl_is_read_example =
    written_ttl_is_read merge merge-IsMergePatch 60 (meta long_run) (omega arith)

abbrev settled_meta : ObjectMeta
settled_meta = with_stored merge merge-IsMergePatch (some (pos 60)) (meta long_run)

settled_ttl : configured_ttl (funcs (some (pos 60))) settled_meta short_world ≡ some (pos 60)
unfolding configured_ttl
settled_ttl = refl

update-settles_example :
    update_annotation_ttl_seconds platform
      (funcs (some (pos 60)))
      (other_object settled_meta)
      short_world
    ≡ (ok tt, short_world)
update-settles_example =
    update-settles merge merge-IsMergePatch platform (funcs (some (pos 60))) (pos 60)
      (meta long_run).annotations (other_object settled_meta) short_world refl settled_ttl

abbrev stale_meta : ObjectMeta
stale_meta = with_stored merge merge-IsMergePatch none (meta long_run)

stale_ttl : configured_ttl (funcs none) stale_meta short_world ≡ none
unfolding configured_ttl
stale_ttl = refl

stale_ttl_survives_example :
    (get stale_meta.annotations annotation_ttl ≡ get (meta long_run).annotations annotation_ttl)
    × (needs_ttl_update (funcs none) stale_meta short_world ≡ true)
stale_ttl_survives_example =
    stale_ttl_survives merge merge-IsMergePatch platform (funcs none) (meta long_run).annotations
      stale_meta short_world refl stale_ttl

dated : ok (pos 0) ≢ err nil_dereference
dated e = absurd (ground (arith, e))

abbrev huge_run : Object
huge_run = with_text "9999999999"

huge_text : get (meta huge_run).annotations annotation_ttl ≡ some (itoa (pos 9999999999))
unfolding find itoa
huge_text = refl

huge_ttl_expires_at_once_example :
    (t : Time) × (t <ℤ pos 0)
    × (process_ttl handler huge_run long_world ≡ (ok (some t), long_world))
huge_ttl_expires_at_once_example =
    huge_ttl_expires_at_once handler huge_run (pos 0) 9999999999 long_world refl refl refl huge_text
      (omega arith, omega arith) (omega arith)
