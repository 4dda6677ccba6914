-- ===== src/History/Processed.antt =====
-- What `ProcessEvent` of history_limiter.go leaves of the run that it processes.
use tektoncd_pruner.Prelude.{
  String, true, false, Option, Option-cases, none, some, ◌≡◌, refl, ap, sym, ◌∙◌, subst, arith, inl,
  inr, is_some,
}
use tektoncd_pruner.Go.Dict.{Dict, get, put, find-replace, entries}
use tektoncd_pruner.Go.Exec.{ok, err, Error}
use tektoncd_pruner.Kube.Object.{Object, meta}
use tektoncd_pruner.Kube.Api.{Platform, merge_annotations}
use tektoncd_pruner.Config.Spec.{annotation_processed}
use tektoncd_pruner.World.{World, read_clock}
use tektoncd_pruner.History.Limit.{HistoryLimiter}
use tektoncd_pruner.History.Event.{
  is_processed, patch_processed, mark_as_processed, cleanup_of, process_event,
}

module _ {S : Type 0} (p : Platform S) (hl : HistoryLimiter (World S)) where
  -- What the API server promises of a run that is read by its namespace and name, while it answers.
  pub record IsRunStore (look_up : String → String → S → Option Object) : Type 0 where
    pub keyed :
        (namespace name : String) (s : S) {o : Object}
        → look_up namespace name s ≡ some o
        → ((meta o).namespace ≡ namespace) × ((meta o).name ≡ name)
    pub get_found :
        (namespace name : String) (w : World S) {o : Object}
        → look_up namespace name w.cluster ≡ some o
        → hl.resource_fn.get namespace name w ≡ (ok o, w)
    pub get_missing :
        (namespace name : String) (w : World S)
        → look_up namespace name w.cluster ≡ none
        → (e : Error) × (hl.resource_fn.get namespace name w ≡ (err e, w))
    -- a merge patch that is accepted stores its annotations
    pub patch :
        (namespace name : String) (d : Dict String) (w : World S) {o : Object}
        → (hl.resource_fn.patch namespace name (merge_annotations d) w).0 ≡ ok tt
        → look_up namespace name
            (hl.resource_fn.patch namespace name (merge_annotations d) w).1.cluster
          ≡ some o
        → (k v : String) → get d k ≡ some v
        → get (meta o).annotations k ≡ some v

  module _ (look_up : String → String → S → Option Object) (laws : IsRunStore look_up) where
    find_at : Object → World S → Option Object
    find_at resource w = look_up (meta resource).namespace (meta resource).name w.cluster

    unread_step :
        (resource : Object) (e : Error) (w : World S)
        → find_at resource (patch_processed p hl (err e, w)) ≡ find_at resource w
    unfolding patch_processed
    unread_step resource e w = refl

    is_processed_of :
        (o : Object) (t : String)
        → get (meta o).annotations annotation_processed ≡ some t
        → is_processed o ≡ true
    unfolding is_processed
    is_processed_of o t h = rw h refl

    module _ (resource : Object)
        (accepted : (d : Dict String) (w : World S)
          → (hl.resource_fn.patch
              (meta resource).namespace
              (meta resource).name
              (merge_annotations d)
              w).0
            ≡ ok tt) where
      patch_processed_marks :
          (latest : Object) (w : World S) {o : Object}
          → (meta latest).namespace ≡ (meta resource).namespace
          → (meta latest).name ≡ (meta resource).name
          → find_at resource (patch_processed p hl (ok latest, w)) ≡ some o
          → is_processed o ≡ true
      unfolding patch_processed find_at
      patch_processed_marks latest w {o} same_namespace same_name found =
          let t : String = p.format_rfc3339 (read_clock p w).0 in
          let d : Dict String = put (meta latest).annotations annotation_processed t in
          is_processed_of o t (
            laws.patch (meta resource).namespace (meta resource).name d (read_clock p w).1
              (accepted d (read_clock p w).1)
              (subst
                (λ n.
                  look_up (meta resource).namespace (meta resource).name
                    (hl.resource_fn.patch (meta resource).namespace n (merge_annotations d)
                      (read_clock p w).1).1.cluster
                  ≡ some o)
                same_name
                (subst
                  (λ n.
                    look_up (meta resource).namespace (meta resource).name
                      (hl.resource_fn.patch n (meta latest).name (merge_annotations d)
                        (read_clock p w).1).1.cluster
                    ≡ some o)
                  same_namespace found))
              annotation_processed t
              (find-replace annotation_processed annotation_processed t
                (entries (meta latest).annotations)))

      mark_as_processed_marks :
          (w : World S) {o : Object}
          → find_at resource (mark_as_processed p hl resource w) ≡ some o
          → is_processed o ≡ true
      unfolding mark_as_processed find_at
      mark_as_processed_marks w {o} found = elim (Option-cases (find_at resource w)) [
        | inl missing ↦
            let (e, unread) =
              laws.get_missing (meta resource).namespace (meta resource).name w missing in
            absurd (
              ground (
                arith,
                sym missing
                    ∙ sym (
                        ap (λ r. find_at resource (patch_processed p hl r)) unread
                        ∙ unread_step resource e w)
                    ∙ found,
              ))
        | inr (latest, here) ↦
            let (same_namespace, same_name) =
              laws.keyed (meta resource).namespace (meta resource).name w.cluster here in
            patch_processed_marks latest w same_namespace same_name (
              subst (λ r. find_at resource (patch_processed p hl r) ≡ some o)
                (laws.get_found (meta resource).namespace (meta resource).name w here) found)
      ]

      process_event_step :
          (w : World S)
          → is_some (meta resource).deletion_timestamp ≡ false
          → is_processed resource ≡ false
          → hl.resource_fn.is_completed resource ≡ true
          → process_event p hl resource w ≡ (
            (cleanup_of p hl resource w).0,
            mark_as_processed p hl resource (cleanup_of p hl resource w).1,
          )
      unfolding process_event
      process_event_step w live fresh completed = rw live (rw fresh (rw completed refl))

      processed_event :
          (o : Object) (w : World S) → is_processed o ≡ true → process_event p hl o w ≡ (ok tt, w)
      unfolding process_event
      processed_event o w h = rw h (ground arith)

      -- The event of a completed run returns what its cleanup returned, and then, even where that
      -- is an error, the run is gone or every later event of it does nothing. The API server is
      -- taken to accept the patch that marks the run.
      pub failed_cleanup_is_not_retried :
          (w : World S)
          → is_some (meta resource).deletion_timestamp ≡ false
          → is_processed resource ≡ false
          → hl.resource_fn.is_completed resource ≡ true
          → (o : Object) (v : World S)
          → look_up
              (meta resource).namespace
              (meta resource).name
              (process_event p hl resource w).1.cluster
            ≡ some o
          → ((process_event p hl resource w).0 ≡ (cleanup_of p hl resource w).0)
            × (process_event p hl o v ≡ (ok tt, v))
      unfolding find_at
      failed_cleanup_is_not_retried w live fresh completed o v found =
          let step = process_event_step w live fresh completed in
          (
            ap (λ r. r.0) step,
            processed_event o v (
                mark_as_processed_marks (cleanup_of p hl resource w).1
                  (sym (ap (λ r. find_at resource r.1) step) ∙ found)),
          )
