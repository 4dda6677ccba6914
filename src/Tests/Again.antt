-- ===== src/Tests/Again.antt =====
-- A cluster of which one run cannot be deleted, and concrete inputs for the theorems on cleanups that
-- stop or are repeated.
use tektoncd_pruner.Prelude.{
  String, ◌≡◌, ◌⊎◌, Bool, true, false, not, some, List, refl, arith, inl, inr, ◌==◌, keep,
}
use tektoncd_pruner.Go.Exec.{Exec, ok, err}
use tektoncd_pruner.Kube.Object.{Object}
use tektoncd_pruner.World.{World}
use tektoncd_pruner.History.Limit.{HistoryLimiter}
use tektoncd_pruner.History.Cleanup.{prune_to}
use tektoncd_pruner.History.Enforcement.{IsRunServer, Gone, has_key, selection}
use tektoncd_pruner.History.Again.{FrontGone, cleanup_is_idempotent, failed_cleanup_deletes_front}
use tektoncd_pruner.Tests.Fixture.{
  platform, unavailable, memory_funcs, memory_limiter, memory_laws, runs, in_namespace,
}
use tektoncd_pruner.Tests.History.{all_runs, busy_world, pruned, prune_to_three}

cleanup_is_idempotent_example :
    prune_to platform memory_limiter "ns" "" all_runs (some 1) pruned ≡ (ok tt, pruned)
cleanup_is_idempotent_example =
    cleanup_is_idempotent platform memory_limiter runs in_namespace memory_laws "ns" "" all_runs 1
      busy_world prune_to_three

abbrev delete_unless : Bool → String → String → Exec (World (List Object)) (Unit {0})
delete_unless true namespace name w = (err unavailable, w)
delete_unless false namespace name w =
    (ok tt, record w { cluster = keep (λ o. not (has_key namespace name o)) w.cluster })

-- The deletion of "a" fails.
abbrev stuck_delete : String → String → Exec (World (List Object)) (Unit {0})
stuck_delete namespace name = delete_unless (name == "a") namespace name

abbrev stuck_limiter : HistoryLimiter (World (List Object))
stuck_limiter = record { resource_fn = record memory_funcs { delete = stuck_delete } }

removes :
    (b : Bool) (namespace name : String) (w : World (List Object))
    → Gone platform stuck_limiter (delete_unless b namespace name w).0
    → (delete_unless b namespace name w).1.cluster
      ≡ keep (λ o. not (has_key namespace name o)) w.cluster
removes true namespace name w gone = absurd (ground arith)
removes false namespace name w gone = refl

may_remove :
    (b : Bool) (namespace name : String) (w : World (List Object))
    → ((delete_unless b namespace name w).1.cluster ≡ w.cluster)
      ⊎ ((delete_unless b namespace name w).1.cluster
          ≡ keep (λ o. not (has_key namespace name o)) w.cluster)
may_remove true namespace name w = inl refl
may_remove false namespace name w = inr refl

stuck_laws : IsRunServer platform stuck_limiter runs in_namespace
stuck_laws = record {
  clock = λ s. refl;
  list = λ namespace selector w. refl;
  delete = λ namespace name. removes (name == "a") namespace name;
}

stuck_run_stops :
    (prune_to platform stuck_limiter "ns" "" all_runs (some 1) busy_world).0 ≡ err unavailable
unfolding prune_to
stuck_run_stops = refl

failed_cleanup_deletes_front_example :
    FrontGone platform stuck_limiter runs in_namespace stuck_laws
      (selection platform stuck_limiter runs in_namespace stuck_laws "ns" "" all_runs 1
        busy_world.cluster)
      busy_world.cluster
      (prune_to platform stuck_limiter "ns" "" all_runs (some 1) busy_world).1.cluster
failed_cleanup_deletes_front_example =
    failed_cleanup_deletes_front platform stuck_limiter runs in_namespace stuck_laws
      (λ namespace name. may_remove (name == "a") namespace name) "ns" "" all_runs 1 busy_world
