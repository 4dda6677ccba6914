-- ===== src/Safety/Workers.antt =====
-- What the workers of a garbage collection do to an invariant, at any time.
use tektoncd_pruner.Prelude.{String, ℤ, List, ◌∷◌, subst, All, All-of_append_right}
use tektoncd_pruner.Kube.Api.{Platform}
use tektoncd_pruner.World.{World}
use tektoncd_pruner.Pruner.Collect.{collect_namespace}
use tektoncd_pruner.Pruner.Pool.{Pool, receive, complete, Reach, start, later}
use tektoncd_pruner.Pruner.Pool.Laws.{All-busy}
use tektoncd_pruner.Safety.View.{Invariant, Spares, Spares-refl, Spares-trans}
use tektoncd_pruner.Safety.Reconcilers.{IsCluster}
use tektoncd_pruner.Safety.Collections.{collect_namespace-Spares}

module _ {S : Type 0} (inv : Invariant S) (p : Platform S) (laws : IsCluster inv p) where
  -- The workers keep an invariant that allows each namespace they are sent.
  pub collection-Spares :
      (update_time : String) (namespaces : List String) (workers : ℤ) (w : World S)
      {s : Pool (World S)}
      → All inv.allows namespaces
      → Reach (collect_namespace p update_time) namespaces workers w s
      → Spares inv w s.world
  collection-Spares update_time namespaces workers w h start = Spares-refl inv w
  collection-Spares update_time namespaces workers w h (later r (receive e f)) =
      collection-Spares update_time namespaces workers w h r
  collection-Spares update_time namespaces workers w h
        (later {s = s} r (complete front {ns = ns} back e)) =
      Spares-trans inv (collection-Spares update_time namespaces workers w h r) (
        collect_namespace-Spares inv p laws update_time ns _
          (All-of_append_right inv.allows front (ns ∷ back) (
            subst (All inv.allows) e
              (All-busy (collect_namespace p update_time) namespaces workers w inv.allows h r))).0)
