-- ===== src/Ttl/Event.antt =====
-- `removeResource` and `ProcessEvent` of the TTL handler.
use tektoncd_pruner.Prelude.{String, not, ◌&&◌, Option, none, some, if◌then◌else◌, is_some}
use tektoncd_pruner.Go.Exec.{Exec, Result, ok, err, wrap, handle, continue}
use tektoncd_pruner.Go.Time.{Time, Duration}
use tektoncd_pruner.Kube.Object.{Object, meta}
use tektoncd_pruner.Kube.Api.{Platform}
use tektoncd_pruner.Metrics.Names.{operation_ttl}
use tektoncd_pruner.Metrics.{record_resource_deleted, record_resource_error, classify_error}
use tektoncd_pruner.World.{World, measure}
use tektoncd_pruner.History.Cleanup.{metric_type, resource_age}
use tektoncd_pruner.Ttl.Annotation.{TtlHandler, update_annotation_ttl_seconds, get_failed}
use tektoncd_pruner.Ttl.Expiry.{needs_cleanup, process_ttl}

module _ {S : Type 0} (p : Platform S) (th : TtlHandler (World S)) where
  open th use {resource_fn}

  -- what follows the call of `Delete`
  unfoldable pub after_ttl_delete :
      String → Duration → Result (Unit {0}) × World S → Result (Unit {0}) × World S
  unfolding record_resource_deleted record_resource_error classify_error
  after_ttl_delete namespace age (ok _, w) = (
    ok tt,
    measure (record_resource_deleted (metric_type resource_fn.type) namespace operation_ttl age) w,
  )
  after_ttl_delete namespace age (err e, w) =
      let recorded =
        measure
          (record_resource_error (metric_type resource_fn.type) namespace
            (classify_error p.errors (some e)) "ttl_deletion_failed")
          w in
      if p.errors.is_not_found e
      then (ok tt, w)
      else (err (wrap "failed to delete resource" e), recorded)

  -- the deletion of a run whose TTL is over
  unfoldable pub delete_expired : Object → Exec (World S) (Unit {0})
  unfolding resource_age after_ttl_delete
  delete_expired resource w =
      let m = meta resource in
      let (age, w') = resource_age p m w in
      after_ttl_delete m.namespace age (resource_fn.delete m.namespace m.name w')

  -- `expiredAt, err := th.processTTL(…)`, with what the function does if the TTL is over
  unfoldable pub if_expired :
      String
      → Exec (World S) (Unit {0})
      → Result (Option Time) × World S
      → Result (Unit {0}) × World S
  if_expired message next (err e, w) = (err (wrap message e), w)
  if_expired message next (ok none, w) = (ok tt, w)
  if_expired message next (ok (some t), w) = next w

  -- the second reading of the run, just before the deletion
  unfoldable pub check_fresh : Object → Exec (World S) (Unit {0})
  unfolding process_ttl if_expired delete_expired get_failed
  check_fresh resource w =
      handle (get_failed p resource_fn "failed to get fresh resource")
        (λ fresh w'.
          if_expired "failed to process TTL for fresh resource" (delete_expired resource)
            (process_ttl th fresh w'))
        (resource_fn.get (meta resource).namespace (meta resource).name w)

  -- `removeResource`
  unfoldable pub remove_resource : Object → Exec (World S) (Unit {0})
  unfolding process_ttl if_expired check_fresh
  remove_resource resource w =
      if_expired "failed to process TTL" (check_fresh resource) (process_ttl th resource w)

  -- `ProcessEvent`
  unfoldable pub process_ttl_event : Object → Exec (World S) (Unit {0})
  unfolding update_annotation_ttl_seconds needs_cleanup remove_resource
  process_ttl_event resource w =
      if is_some (meta resource).deletion_timestamp
      then (ok tt, w)
      else if not (resource_fn.is_completed resource) && resource_fn.ignore resource
      then (ok tt, w)
      else continue
          (λ _ w'.
            if not (needs_cleanup resource_fn resource)
            then (ok tt, w')
            else remove_resource resource w')
          (update_annotation_ttl_seconds p resource_fn resource w)
