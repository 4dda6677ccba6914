-- ===== src/Pruner/Rechecked.antt =====
-- What the garbage collection of controller.go does with a run that carries the mark of the history
-- limiter.
use tektoncd_pruner.Prelude.{
  String, true, false, Option, none, some, ◌≡◌, refl, ap, ◌∙◌, arith, ◌==◌, if◌then◌else◌, is_some,
}
use tektoncd_pruner.Go.Dict.{at, get}
use tektoncd_pruner.Go.Exec.{Exec, ok}
use tektoncd_pruner.Kube.Object.{Object, meta}
use tektoncd_pruner.Kube.Api.{Platform, Patch}
use tektoncd_pruner.Config.Spec.{annotation_processed}
use tektoncd_pruner.World.{World}
use tektoncd_pruner.History.Limit.{HistoryLimiter}
use tektoncd_pruner.History.Event.{is_processed, process_event}
use tektoncd_pruner.Ttl.Annotation.{TtlHandler}
use tektoncd_pruner.Ttl.Event.{process_ttl_event}
use tektoncd_pruner.Pruner.Collect.{unless_error, recheck, collect_handlers, collect_run}

at_missing :
    (o : Option String) → (elim o [ none ↦ "" | some v ↦ v ] == "") ≡ false → is_some o ≡ true
at_missing none h = absurd (ground (arith, h))
at_missing (some v) h = refl

marked_is_processed :
    (o : Object)
    → (at (meta o).annotations annotation_processed == "") ≡ false
    → is_processed o ≡ true
unfolding is_processed
marked_is_processed o h = at_missing (get (meta o).annotations annotation_processed) h

module _ {S : Type 0} (p : Platform S) (hl : HistoryLimiter (World S))
    (th : TtlHandler (World S)) where
  processed_nothing :
      (o : Object) (w : World S) → is_processed o ≡ true → process_event p hl o w ≡ (ok tt, w)
  unfolding process_event
  processed_nothing o w h = rw h (ground arith)

  collect_handlers_step :
      (o : Object) (w : World S)
      → collect_handlers p hl th o w
        ≡ unless_error p (λ v. (process_ttl_event p th o v).1) (process_event p hl o w)
  unfolding collect_handlers
  collect_handlers_step o w = refl

  collect_run_step :
      (patch : String → String → Patch → Exec (World S) (Unit {0})) (update_time : String)
      (o : Object) (w : World S)
      → collect_run p hl th patch update_time o w ≡ (
          if at (meta o).annotations annotation_processed == ""
          then collect_handlers p hl th o w
          else unless_error p (collect_handlers p hl th o) (
              recheck p patch o
                (p.parse_rfc3339 (at (meta o).annotations annotation_processed))
                (p.parse_rfc3339 update_time)
                w))
  unfolding collect_run
  collect_run_step patch update_time o w = refl

  -- The pass of the garbage collection that takes the mark off a run does not apply the history
  -- limit to it: the handlers still read the mark on the run as it was listed, so only the TTL
  -- handler acts.
  pub unmarked_run_waits :
      (patch : String → String → Patch → Exec (World S) (Unit {0})) (update_time : String)
      (o : Object) (w v : World S)
      → (at (meta o).annotations annotation_processed == "") ≡ false
      → recheck p patch o
          (p.parse_rfc3339 (at (meta o).annotations annotation_processed))
          (p.parse_rfc3339 update_time)
          w
        ≡ (ok tt, v)
      → collect_run p hl th patch update_time o w ≡ (process_ttl_event p th o v).1
  unmarked_run_waits patch update_time o w v marked rechecked =
      collect_run_step patch update_time o w
      ∙ rw marked (rw rechecked refl)
      ∙ collect_handlers_step o v
      ∙ ap (unless_error p (λ v. (process_ttl_event p th o v).1))
          (processed_nothing o v (marked_is_processed o marked))
