-- ===== src/History/Event.antt =====
-- `ProcessEvent` of the history limiter, `isProcessed` and `markAsProcessed`.
use tektoncd_pruner.Prelude.{Bool, if◌then◌else◌, is_some, not}
use tektoncd_pruner.Go.Dict.{get, put, find, replace}
use tektoncd_pruner.Go.Exec.{Exec, Result, ok, err}
use tektoncd_pruner.Kube.Object.{Object, meta}
use tektoncd_pruner.Kube.Api.{Platform, merge_annotations}
use tektoncd_pruner.Config.Spec.{annotation_processed}
use tektoncd_pruner.World.{World, read_clock}
use tektoncd_pruner.History.Limit.{HistoryLimiter}
use tektoncd_pruner.History.Cleanup.{do_successful_resource_cleanup, do_failed_resource_cleanup}

-- `isProcessed`
unfoldable pub is_processed : Object → Bool
unfolding find
is_processed resource = is_some (get (meta resource).annotations annotation_processed)

module _ {S : Type 0} (p : Platform S) (hl : HistoryLimiter (World S)) where
  open hl use {resource_fn}

  -- the patch of the run that was read; its outcome is only logged
  unfoldable pub patch_processed : Result Object × World S → World S
  unfolding read_clock replace
  patch_processed (err e, w) = w
  patch_processed (ok latest, w) =
      let (now, w') = read_clock p w in
      let annotations = put (meta latest).annotations annotation_processed (p.format_rfc3339 now) in
      (resource_fn.patch (meta latest).namespace (meta latest).name (merge_annotations annotations)
        w').1

  -- `markAsProcessed`
  unfoldable pub mark_as_processed : Object → World S → World S
  unfolding patch_processed
  mark_as_processed resource w =
      patch_processed (resource_fn.get (meta resource).namespace (meta resource).name w)

  abbrev deferred : (World S → World S) → Result (Unit {0}) × World S → Result (Unit {0}) × World S
  deferred f (r, w) = (r, f w)

  -- the cleanup that the state of a completed run asks for
  unfoldable pub cleanup_of : Object → Exec (World S) (Unit {0})
  unfolding do_successful_resource_cleanup do_failed_resource_cleanup
  cleanup_of resource w =
      if resource_fn.is_successful resource
      then do_successful_resource_cleanup p hl resource w
      else if resource_fn.is_failed resource
      then do_failed_resource_cleanup p hl resource w
      else (ok tt, w)

  -- `ProcessEvent`; the deferred `markAsProcessed` runs after the cleanup, whatever it returned
  unfoldable pub process_event : Object → Exec (World S) (Unit {0})
  unfolding is_processed cleanup_of mark_as_processed
  process_event resource w =
      if is_some (meta resource).deletion_timestamp
      then (ok tt, w)
      else if is_processed resource
      then (ok tt, w)
      else if not (resource_fn.is_completed resource)
      then (ok tt, w)
      else deferred (mark_as_processed resource) (cleanup_of resource w)
