-- ===== src/Safety/Expired.antt =====
-- What `ProcessEvent` of ttl_handler.go does to an invariant of the cluster.
use tektoncd_pruner.Prelude.{
  String, ℤ, true, false, not, ◌&&◌, ◌||◌, Bool-cases, Option, none, some, ◌≡◌, refl, sym, ap, ◌∙◌,
  inl, inr, arith, if◌then◌else◌, is_some,
}
use tektoncd_pruner.Go.Dict.{Dict}
use tektoncd_pruner.Go.Exec.{Exec, Result, ok, err, Error, handle, continue}
use tektoncd_pruner.Go.Time.{Time, Duration}
use tektoncd_pruner.Kube.Object.{Object, meta}
use tektoncd_pruner.Kube.Api.{Platform, merge_annotations}
use tektoncd_pruner.Metrics.{classify_error}
use tektoncd_pruner.Metrics.Names.{operation_ttl}
use tektoncd_pruner.World.{World}
use tektoncd_pruner.History.Cleanup.{metric_type, resource_age}
use tektoncd_pruner.Ttl.Annotation.{
  TtlHandler, made, patched_annotations, patch_ttl, patch_failed, get_failed, needs_ttl_update,
  configured_ttl, update_annotation_ttl_seconds,
}
use tektoncd_pruner.Ttl.Expiry.{needs_cleanup, process_ttl}
use tektoncd_pruner.Ttl.Event.{
  after_ttl_delete, delete_expired, if_expired, check_fresh, remove_resource, process_ttl_event,
}
use tektoncd_pruner.Safety.View.{
  Invariant, Spares, Spares-refl, Spares-trans, Sparing, Spares-while, IsSafeObject, IsRunKeeper,
  IsQuiet, if_result-Spares, measured-Spares, tells_deletion, tells_error, continue-Spares,
  handle-Spares,
}
use tektoncd_pruner.Safety.Deletions.{resource_age-Spares}

module _ {S : Type 0} (inv : Invariant S) (p : Platform S) (quiet : IsQuiet inv p)
    (th : TtlHandler (World S)) (kind : String)
    (th_clock : (w : World S) → Spares inv w (th.clock w).1) where
  open th use {resource_fn}

  module _
      (laws : IsRunKeeper inv kind resource_fn.is_completed resource_fn.get resource_fn.patch
        resource_fn.delete) where
    get_failed-Spares :
        (message : String) (e : Error) (w : World S)
        → Spares inv w (get_failed p resource_fn message e w).1
    unfolding get_failed
    get_failed-Spares message e w = elim (Bool-cases (p.errors.is_not_found e)) [
      | inl absent ↦ rw absent (Spares-refl inv w)
      | inr other ↦ rw other (Spares-refl inv w)
    ]

    patch_ttl-Spares :
        (ttl : Option ℤ) (o : Object) (w : World S)
        → inv.allows (meta o).namespace
        → Spares inv w (patch_ttl p resource_fn ttl o w).1
    unfolding patch_ttl
    patch_ttl-Spares ttl o w a = given (patched_annotations ttl (made (meta o).annotations))
      where
        given :
            (patched : Option (Dict String))
            → Spares inv w
                (elim patched as (λ _. Result (Unit {0}) × World S) [
                  | none ↦ (ok tt, w)
                  | some annotations ↦
                      handle
                        (λ e v. (err (patch_failed p resource_fn e), v))
                        (λ _ v. (ok tt, v))
                        (resource_fn.patch
                          (meta o).namespace
                          (meta o).name
                          (merge_annotations annotations)
                          w)
                ]).1
        given none = Spares-refl inv w
        given (some annotations) =
            let q =
              resource_fn.patch (meta o).namespace (meta o).name (merge_annotations annotations)
                w in
            handle-Spares inv (λ e v. (err (patch_failed p resource_fn e), v)) (λ _ v. (ok tt, v)) q
              (laws.patching (meta o).namespace (meta o).name (merge_annotations annotations) a w)
              (λ e. Spares-refl inv q.1) (λ _ _. Spares-refl inv q.1)

    update-Spares :
        (o : Object)
        → inv.allows (meta o).namespace
        → Sparing inv (update_annotation_ttl_seconds p resource_fn o)
    unfolding update_annotation_ttl_seconds
    update-Spares o a w = elim (Bool-cases (needs_ttl_update resource_fn (meta o) w)) [
      | inl needed ↦ rw needed (
          let q = resource_fn.get (meta o).namespace (meta o).name w in
          handle-Spares inv (get_failed p resource_fn "failed to get resource")
            (patch_ttl p resource_fn (configured_ttl resource_fn (meta o) w)) q
            (laws.getting (meta o).namespace (meta o).name w)
            (λ e. get_failed-Spares "failed to get resource" e q.1)
            (λ latest read.
              patch_ttl-Spares (configured_ttl resource_fn (meta o) w) latest q.1
                (laws.read_inside (meta o).namespace (meta o).name w a read)))
      | inr current ↦ rw current (Spares-refl inv w)
    ]

    process_ttl-Spares : (o : Object) → Sparing inv (process_ttl th o)
    unfolding process_ttl
    process_ttl-Spares o w =
        elim (Bool-cases
          (is_some (meta o).deletion_timestamp || not (needs_cleanup resource_fn o))) [
            | inl skipped ↦ rw skipped (Spares-refl inv w)
            | inr wanted ↦ rw wanted (th_clock w)
          ]

    running-not_expired :
        (o : Object) (w : World S)
        → resource_fn.is_completed o ≡ false
        → process_ttl th o w ≡ (ok none, w)
    unfolding process_ttl needs_cleanup
    running-not_expired o w running = rw running (ground arith)

    -- Only a completed run is expired.
    expired-completed :
        (o : Object) (w : World S) {t : Time} {v : World S}
        → process_ttl th o w ≡ (ok (some t), v)
        → resource_fn.is_completed o ≡ true
    expired-completed o w h = elim (Bool-cases (resource_fn.is_completed o)) [
      | inl completed ↦ completed
      | inr running ↦
          absurd (expired_none (ap (λ q. q.0) (sym (running-not_expired o w running) ∙ h)))
    ]
      where
        expired_none : {t : Time} → ok none ≡ ok (some t) → ⊥
        expired_none e = ground arith

    after_ttl_delete-Spares :
        (namespace : String) (age : Duration) (q : Result (Unit {0}) × World S)
        → Spares inv q.1 (after_ttl_delete p th namespace age q).1
    unfolding after_ttl_delete
    after_ttl_delete-Spares namespace age (ok _, w) =
        measured-Spares inv quiet
          (tells_deletion (metric_type resource_fn.type) namespace operation_ttl age)
          (Spares-refl inv w)
    after_ttl_delete-Spares namespace age (err e, w) =
        if_result-Spares inv (p.errors.is_not_found e) _ _ (Spares-refl inv w) (
          measured-Spares inv quiet
            (tells_error (metric_type resource_fn.type) namespace (classify_error p.errors (some e))
              "ttl_deletion_failed")
            (Spares-refl inv w))

    delete_expired-Spares :
        (o : Object) (w : World S)
        → IsSafeObject inv kind o
        → Spares inv w (delete_expired p th o w).1
    unfolding delete_expired
    delete_expired-Spares o w h =
        let m = meta o in
        let v : World S = (resource_age p m w).1 in
        Spares-trans inv (resource_age-Spares inv p quiet m w) (
          Spares-trans inv (laws.deleting m.namespace m.name h v) (
            after_ttl_delete-Spares m.namespace (resource_age p m w).0
              (resource_fn.delete m.namespace m.name v)))

    if_expired-Spares :
        (message : String) (next : Exec (World S) (Unit {0})) (s : World S)
        (q : Result (Option Time) × World S)
        → Spares inv s q.1
        → ((t : Time) → q ≡ (ok (some t), q.1) → Spares inv q.1 (next q.1).1)
        → Spares inv s (if_expired p th message next q).1
    unfolding if_expired
    if_expired-Spares message next s (err e, w) h k = h
    if_expired-Spares message next s (ok none, w) h k = h
    if_expired-Spares message next s (ok (some t), w) h k = Spares-trans inv h (k t refl)

    -- The run is read again before the deletion, and it is this reading that must be completed.
    check_fresh-Spares :
        (o : Object) → inv.allows (meta o).namespace → Sparing inv (check_fresh p th o)
    unfolding check_fresh
    check_fresh-Spares o a w =
        let m = meta o in
        let q = resource_fn.get m.namespace m.name w in
        Spares-while inv w _ (λ alive.
          handle-Spares inv (get_failed p resource_fn "failed to get fresh resource") _ q
            (laws.getting m.namespace m.name w)
            (λ e. get_failed-Spares "failed to get fresh resource" e q.1)
            (λ fresh e.
              if_expired-Spares "failed to process TTL for fresh resource" (delete_expired p th o)
                q.1 (process_ttl th fresh q.1) (process_ttl-Spares fresh q.1)
                (λ t expired.
                  delete_expired-Spares o (process_ttl th fresh q.1).1 (
                    laws.got m.namespace m.name w a alive e
                      (expired-completed fresh q.1 expired)))))

    remove_resource-Spares :
        (o : Object) → inv.allows (meta o).namespace → Sparing inv (remove_resource p th o)
    unfolding remove_resource
    remove_resource-Spares o a w =
        if_expired-Spares "failed to process TTL" (check_fresh p th o) w (process_ttl th o w)
          (process_ttl-Spares o w) (λ t expired. check_fresh-Spares o a (process_ttl th o w).1)

    clean_up : Object → Exec (World S) (Unit {0})
    clean_up o w =
        if not (needs_cleanup resource_fn o) then (ok tt, w) else remove_resource p th o w

    clean_up-Spares : (o : Object) → inv.allows (meta o).namespace → Sparing inv (clean_up o)
    unfolding clean_up
    clean_up-Spares o a w = elim (Bool-cases (needs_cleanup resource_fn o)) [
      | inl needed ↦ rw needed (remove_resource-Spares o a w)
      | inr kept ↦ rw kept (Spares-refl inv w)
    ]

    process_ttl_event_step :
        (o : Object) (w : World S)
        → process_ttl_event p th o w ≡ (
            if is_some (meta o).deletion_timestamp
            then (ok tt, w)
            else if not (resource_fn.is_completed o) && resource_fn.ignore o
            then (ok tt, w)
            else continue (λ _. clean_up o) (update_annotation_ttl_seconds p resource_fn o w))
    unfolding process_ttl_event clean_up
    process_ttl_event_step o w = refl

    -- The TTL handler, whatever it returns and however old the copy of the run is that it gets, keeps
    -- the invariant.
    pub process_ttl_event-Spares :
        (o : Object) → inv.allows (meta o).namespace → Sparing inv (process_ttl_event p th o)
    process_ttl_event-Spares o a w =
        rw (process_ttl_event_step o w) (elim (Bool-cases (is_some (meta o).deletion_timestamp)) [
          | inl deleted ↦ rw deleted (Spares-refl inv w)
          | inr live ↦
              elim (Bool-cases (not (resource_fn.is_completed o) && resource_fn.ignore o)) [
                | inl ignored ↦ rw live (rw ignored (Spares-refl inv w))
                | inr seen ↦ rw live (
                    rw seen (
                      continue-Spares inv (λ _. clean_up o)
                        (update_annotation_ttl_seconds p resource_fn o w) (update-Spares o a w)
                        (λ _ _.
                          clean_up-Spares o a (update_annotation_ttl_seconds p resource_fn o w).1)))
              ]
        ])
