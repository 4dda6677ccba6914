-- ===== src/Tests/Store.antt =====
-- A cluster of at most one run whose runs cannot be listed, and the mark of the history limiter in
-- it.
use tektoncd_pruner.Prelude.{
  String, pos, Bool, Bool-cases, true, false, ◌&&◌, Option, none, some, [], ◌∷◌, ◌≡◌, refl, ap,
  subst, arith, inl, inr, ◌==◌, if◌then◌else◌, eq_iff,
}
use tektoncd_pruner.Go.Dict.{Dict, get}
use tektoncd_pruner.Go.Exec.{Result, ok, err}
use tektoncd_pruner.Kube.Object.{Object, ObjectMeta, meta, other_object}
use tektoncd_pruner.Kube.Api.{Patch, merge_annotations, remove_annotation}
use tektoncd_pruner.World.{World}
use tektoncd_pruner.History.Limit.{HistoryLimiter}
use tektoncd_pruner.History.Event.{is_processed, process_event, cleanup_of}
use tektoncd_pruner.History.Processed.{IsRunStore, failed_cleanup_is_not_retried}
use tektoncd_pruner.Config.Spec.{level_global, annotation_processed}
use tektoncd_pruner.Tests.Fixture.{platform, world_of, meta_of, run_of, unavailable}
use tektoncd_pruner.Tests.Merge.{merge, merge-IsMergePatch}

abbrev is_at : String → String → ObjectMeta → Bool
is_at namespace name m = m.namespace == namespace && m.name == name

abbrev look_up : String → String → Option ObjectMeta → Option Object
look_up namespace name none = none
look_up namespace name (some m) = if is_at namespace name m then some (other_object m) else none

abbrev patched : String → String → Patch → Option ObjectMeta → Option ObjectMeta
patched namespace name (remove_annotation k) s = s
patched namespace name (merge_annotations d) none = none
patched namespace name (merge_annotations d) (some m) =
    if is_at namespace name m
    then some (record m { annotations = merge m.annotations d })
    else some m

abbrev read : Option Object → World (Option ObjectMeta) → Result Object × World (Option ObjectMeta)
read none w = (err unavailable, w)
read (some o) w = (ok o, w)

abbrev pub single_limiter : HistoryLimiter (World (Option ObjectMeta))
single_limiter = record {
  resource_fn = record {
    type = "PipelineRun";
    get = λ namespace name w. read (look_up namespace name w.cluster) w;
    update = λ o w. (err unavailable, w);
    patch = λ namespace name patch w.
        (ok tt, record w { cluster = patched namespace name patch w.cluster });
    delete = λ namespace name w. (err unavailable, w);
    list = λ namespace selector w. (err unavailable, w);
    get_failed_history_limit_count = λ namespace name selector w. (some (pos 1), "");
    get_success_history_limit_count = λ namespace name selector w. (some (pos 1), "");
    is_successful = λ o. true;
    is_failed = λ o. false;
    is_completed = λ o. true;
    get_default_label_key = "tekton.dev/pipeline";
    get_enforced_config_level = λ namespace name selector w. level_global;
  };
}

found_if :
    (b : Bool) (m : ObjectMeta) {o : Object}
    → (if b then some (other_object m) else none) ≡ some o
    → (b ≡ true) × (other_object m ≡ o)
found_if true m h = (refl, ground (arith, h))
found_if false m h = absurd (ground (arith, h))

keys_of :
    (namespace name : String) (m : ObjectMeta)
    → is_at namespace name m ≡ true
    → (m.namespace ≡ namespace) × (m.name ≡ name)
keys_of namespace name m h =
    ((eq_iff m.namespace namespace).0 (ground arith), (eq_iff m.name name).0 (ground arith))

found_at :
    (namespace name : String) (s : Option ObjectMeta) {o : Object}
    → look_up namespace name s ≡ some o
    → ((meta o).namespace ≡ namespace) × ((meta o).name ≡ name)
found_at namespace name none h = absurd (ground (arith, h))
found_at namespace name (some m) {o} h =
    let (here, same) = found_if (is_at namespace name m) m h in
    subst (λ o. ((meta o).namespace ≡ namespace) × ((meta o).name ≡ name)) same
      (keys_of namespace name m here)

patch_stored :
    (namespace name : String) (d : Dict String) (s : Option ObjectMeta) {o : Object}
    → look_up namespace name (patched namespace name (merge_annotations d) s) ≡ some o
    → (k v : String) → get d k ≡ some v
    → get (meta o).annotations k ≡ some v
patch_stored namespace name d none h k v e = absurd (ground (arith, h))
patch_stored namespace name d (some m) {o} h k v e = elim (Bool-cases (is_at namespace name m)) [
  | inl here ↦
      let (_, same) =
        found_if (is_at namespace name m) (record m { annotations = merge m.annotations d })
          (subst
            (λ b.
              look_up namespace name
                (if b then some (record m { annotations = merge m.annotations d }) else some m)
              ≡ some o)
            here h) in
      subst (λ o. get (meta o).annotations k ≡ some v) same
        (merge-IsMergePatch.given m.annotations d k v e)
  | inr away ↦
      let (here, _) = found_if (is_at namespace name m) m (
        subst
          (λ b.
            look_up namespace name
              (if b then some (record m { annotations = merge m.annotations d }) else some m)
            ≡ some o)
          away h) in
      absurd (ground (arith, here, away))
]

single_laws : IsRunStore platform single_limiter look_up
single_laws = record {
  keyed = found_at;
  get_found = λ namespace name w e. ap (λ o. read o w) e;
  get_missing = λ namespace name w e. (unavailable, ap (λ o. read o w) e);
  patch = λ namespace name d w _. patch_stored namespace name d w.cluster;
}

abbrev pub one_run : World (Option ObjectMeta)
one_run = world_of (some (meta_of "a" 1))

abbrev marked_meta : ObjectMeta
marked_meta = record (meta_of "a" 1) {
  annotations = merge none (some ((annotation_processed, "12:00") ∷ []));
}

marked_found :
    look_up "ns" "a" (process_event platform single_limiter (run_of "a" 1) one_run).1.cluster
    ≡ some (other_object marked_meta)
unfolding process_event
marked_found = refl

cleanup_failed : (cleanup_of platform single_limiter (run_of "a" 1) one_run).0 ≡ err unavailable
unfolding cleanup_of
cleanup_failed = refl

unmarked : is_processed (run_of "a" 1) ≡ false
unfolding is_processed
unmarked = refl

failed_cleanup_is_not_retried_example :
    ((process_event platform single_limiter (run_of "a" 1) one_run).0
      ≡ (cleanup_of platform single_limiter (run_of "a" 1) one_run).0)
    × (process_event platform single_limiter (other_object marked_meta) one_run ≡ (ok tt, one_run))
failed_cleanup_is_not_retried_example =
    failed_cleanup_is_not_retried platform single_limiter look_up single_laws (run_of "a" 1)
      (λ d w. refl) one_run refl unmarked refl (other_object marked_meta) one_run marked_found
