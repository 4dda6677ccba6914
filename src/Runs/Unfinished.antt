-- ===== src/Runs/Unfinished.antt =====
-- What the handlers of history_limiter.go and ttl_handler.go do with a run that is not completed.
use tektoncd_pruner.Prelude.{
  false, not, ◌&&◌, Bool-cases, ◌≡◌, ◌⊎◌, refl, ◌∙◌, arith, inl, inr, is_some, if◌then◌else◌,
}
use tektoncd_pruner.Go.Exec.{Exec, Result, ok, err, continue}
use tektoncd_pruner.Kube.Object.{Object, meta}
use tektoncd_pruner.Kube.Api.{Platform}
use tektoncd_pruner.World.{World}
use tektoncd_pruner.History.Limit.{HistoryLimiter}
use tektoncd_pruner.History.Event.{process_event}
use tektoncd_pruner.Ttl.Annotation.{TtlHandler, update_annotation_ttl_seconds}
use tektoncd_pruner.Ttl.Expiry.{needs_cleanup}
use tektoncd_pruner.Ttl.Event.{process_ttl_event, remove_resource}

module _ {S : Type 0} (p : Platform S) (hl : HistoryLimiter (World S))
    (th : TtlHandler (World S)) where
  history_skips :
      (o : Object) (w : World S)
      → hl.resource_fn.is_completed o ≡ false
      → process_event p hl o w ≡ (ok tt, w)
  unfolding process_event
  history_skips o w running = rw running (ground arith)

  clean_after : Object → Exec (World S) (Unit {0})
  clean_after o w =
      if not (needs_cleanup th.resource_fn o) then (ok tt, w) else remove_resource p th o w

  process_ttl_event_step :
      (o : Object) (w : World S)
      → process_ttl_event p th o w ≡ (
          if is_some (meta o).deletion_timestamp
          then (ok tt, w)
          else if not (th.resource_fn.is_completed o) && th.resource_fn.ignore o
          then (ok tt, w)
          else continue (λ _. clean_after o) (update_annotation_ttl_seconds p th.resource_fn o w))
  unfolding process_ttl_event clean_after
  process_ttl_event_step o w = refl

  needs_no_cleanup :
      (o : Object) → th.resource_fn.is_completed o ≡ false → needs_cleanup th.resource_fn o ≡ false
  unfolding needs_cleanup
  needs_no_cleanup o running = rw running refl

  nothing_after :
      (o : Object) (q : Result (Unit {0}) × World S)
      → th.resource_fn.is_completed o ≡ false
      → continue (λ _. clean_after o) q ≡ q
  unfolding clean_after
  nothing_after o (ok _, w) running = rw (needs_no_cleanup o running) refl
  nothing_after o (err e, w) running = refl

  -- Of a run that is not completed the history limiter makes no call, and the TTL handler makes
  -- none but those that keep the TTL annotation up to date.
  pub unfinished_run_is_kept :
      (o : Object) (w : World S)
      → hl.resource_fn.is_completed o ≡ false
      → th.resource_fn.is_completed o ≡ false
      → (process_event p hl o w ≡ (ok tt, w))
        × ((process_ttl_event p th o w ≡ (ok tt, w))
            ⊎ (process_ttl_event p th o w ≡ update_annotation_ttl_seconds p th.resource_fn o w))
  unfinished_run_is_kept o w running running' = (
    history_skips o w running,
    elim (Bool-cases (is_some (meta o).deletion_timestamp)) [
      | inl deleted ↦ inl (process_ttl_event_step o w ∙ rw deleted refl)
      | inr live ↦
          elim (Bool-cases (not (th.resource_fn.is_completed o) && th.resource_fn.ignore o)) [
            | inl ignored ↦ inl (process_ttl_event_step o w ∙ rw live (rw ignored refl))
            | inr seen ↦ inr (
                process_ttl_event_step o w
                ∙ rw live (rw seen refl)
                ∙ nothing_after o (update_annotation_ttl_seconds p th.resource_fn o w) running')
          ]
    ],
  )
