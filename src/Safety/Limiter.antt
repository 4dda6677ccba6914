-- ===== src/Safety/Limiter.antt =====
-- What `ProcessEvent` of history_limiter.go does to an invariant of the cluster.
use tektoncd_pruner.Prelude.{
  String, Bool, Bool-cases, sym, subst, refl, ◌≡◌, inl, inr, arith, is_some,
}
use tektoncd_pruner.Go.Exec.{Result, ok, err}
use tektoncd_pruner.Kube.Object.{Object, meta}
use tektoncd_pruner.Kube.Api.{Platform}
use tektoncd_pruner.Config.Spec.{
  EnforcedConfigLevel, SelectorSpec, annotation_successful_limit, annotation_failed_limit,
}
use tektoncd_pruner.Config.Select.{Found}
use tektoncd_pruner.World.{World, read_clock}
use tektoncd_pruner.History.Limit.{HistoryLimiter, effective_limit, choose_limit}
use tektoncd_pruner.History.Cleanup.{
  limit_found, do_resource_cleanup, is_failed_resource, is_successful_resource,
  do_successful_resource_cleanup, do_failed_resource_cleanup,
}
use tektoncd_pruner.History.Bounds.{level_for, configured_for, do_resource_cleanup_step}
use tektoncd_pruner.History.Event.{
  is_processed, patch_processed, mark_as_processed, cleanup_of, process_event,
}
use tektoncd_pruner.Safety.Deletions.{OnlyCompleted, prune_to-Spares}
use tektoncd_pruner.Safety.View.{
  Invariant, Spares, Spares-refl, Spares-trans, Sparing, IsRunKeeper, IsRunLister, IsQuiet,
  read_clock-Spares,
}

module _ {S : Type 0} (inv : Invariant S) (p : Platform S) (quiet : IsQuiet inv p)
    (hl : HistoryLimiter (World S)) (kind : String) where
  open hl use {resource_fn}

  module _
      (laws : IsRunKeeper inv kind resource_fn.is_completed resource_fn.get resource_fn.patch
        resource_fn.delete)
      (lister : IsRunLister inv kind resource_fn.is_completed resource_fn.list) where
    limit_found-Spares :
        (o : Object) (level : EnforcedConfigLevel) (passes : Object → Bool) (r : Result Found)
        (w : World S)
        → OnlyCompleted inv p quiet hl kind laws lister passes
        → inv.allows (meta o).namespace
        → Spares inv w (limit_found p hl o level passes r w).1
    limit_found-Spares o level passes (err e) w only a = Spares-refl inv w
    limit_found-Spares o level passes (ok (limit, by)) w only a =
        prune_to-Spares inv p quiet hl kind laws lister (meta o).namespace _ passes
          (effective_limit limit) w only a

    do_resource_cleanup-Spares :
        (o : Object) (limit_annotation : String)
        (get_limit : String → String → SelectorSpec → World S → Found) (passes : Object → Bool)
        (w : World S)
        → OnlyCompleted inv p quiet hl kind laws lister passes
        → inv.allows (meta o).namespace
        → Spares inv w (do_resource_cleanup p hl o limit_annotation get_limit passes w).1
    do_resource_cleanup-Spares o limit_annotation get_limit passes w only a =
        subst (λ q. Spares inv w q.1)
          (sym (do_resource_cleanup_step p hl o limit_annotation get_limit passes w))
          (limit_found-Spares o (level_for p hl o w) passes
            (choose_limit (level_for p hl o w) (meta o).annotations limit_annotation
              (configured_for p hl o get_limit w))
            w only a)

    failed-OnlyCompleted : OnlyCompleted inv p quiet hl kind laws lister (is_failed_resource p hl)
    unfolding is_failed_resource
    failed-OnlyCompleted o h = ground arith

    successful-OnlyCompleted :
        OnlyCompleted inv p quiet hl kind laws lister (is_successful_resource p hl)
    unfolding is_successful_resource
    successful-OnlyCompleted o h = ground arith

    cleanup_of-Spares :
        (o : Object) (w : World S)
        → inv.allows (meta o).namespace
        → Spares inv w (cleanup_of p hl o w).1
    unfolding cleanup_of do_successful_resource_cleanup do_failed_resource_cleanup
    cleanup_of-Spares o w a = elim (Bool-cases (resource_fn.is_successful o)) [
      | inl succeeded ↦ rw succeeded (
          do_resource_cleanup-Spares o annotation_successful_limit
            resource_fn.get_success_history_limit_count (is_successful_resource p hl) w
            successful-OnlyCompleted a)
      | inr other ↦ elim (Bool-cases (resource_fn.is_failed o)) [
        | inl failed ↦ rw other (
            rw failed (
              do_resource_cleanup-Spares o annotation_failed_limit
                resource_fn.get_failed_history_limit_count (is_failed_resource p hl) w
                failed-OnlyCompleted a))
        | inr neither ↦ rw other (rw neither (Spares-refl inv w))
      ]
    ]

    patch_processed-Spares :
        (q : Result Object × World S)
        → ((latest : Object) → q ≡ (ok latest, q.1) → inv.allows (meta latest).namespace)
        → Spares inv q.1 (patch_processed p hl q)
    unfolding patch_processed
    patch_processed-Spares (err e, w) inside = Spares-refl inv w
    patch_processed-Spares (ok latest, w) inside =
        Spares-trans inv (read_clock-Spares inv p quiet w) (
          laws.patching (meta latest).namespace (meta latest).name _ (inside latest refl)
            (read_clock p w).1)

    pub mark_as_processed-Spares :
        (o : Object) (w : World S)
        → inv.allows (meta o).namespace
        → Spares inv w (mark_as_processed p hl o w)
    unfolding mark_as_processed
    mark_as_processed-Spares o w a =
        Spares-trans inv (laws.getting (meta o).namespace (meta o).name w) (
          patch_processed-Spares (resource_fn.get (meta o).namespace (meta o).name w)
            (λ latest. laws.read_inside (meta o).namespace (meta o).name w a))

    -- The history limiter, whatever it returns, keeps the invariant.
    pub process_event-Spares :
        (o : Object) → inv.allows (meta o).namespace → Sparing inv (process_event p hl o)
    unfolding process_event
    process_event-Spares o a w = elim (Bool-cases (is_some (meta o).deletion_timestamp)) [
      | inl deleted ↦ rw deleted (Spares-refl inv w)
      | inr live ↦ elim (Bool-cases (is_processed o)) [
        | inl processed ↦ rw live (rw processed (Spares-refl inv w))
        | inr new ↦ elim (Bool-cases (resource_fn.is_completed o)) [
          | inl completed ↦ rw live (
              rw new (
                rw completed (
                  Spares-trans inv (cleanup_of-Spares o w a)
                    (mark_as_processed-Spares o (cleanup_of p hl o w).1 a))))
          | inr running ↦ rw live (rw new (rw running (Spares-refl inv w)))
        ]
      ]
    ]
