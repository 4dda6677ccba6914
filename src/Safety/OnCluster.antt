-- ===== src/Safety/OnCluster.antt =====
-- Invariants of the cluster alone: neither the recorder nor the configuration matters to them.
use tektoncd_pruner.Prelude.{String}
use tektoncd_pruner.Kube.Api.{Platform}
use tektoncd_pruner.World.{read_clock}
use tektoncd_pruner.Pruner.Namespaces.{CoreClient}
use tektoncd_pruner.Runs.Reconcile.{finish, stop_timer}
use tektoncd_pruner.Safety.View.{Invariant, IsQuiet}
use tektoncd_pruner.Safety.Reconcilers.{IsCluster, Finishing}
use tektoncd_pruner.Safety.Prepared.{Loading}

module _ {S : Type 0} (alive : S → Type 0) (safe : String → String → String → Type 0)
    (allows : String → Type 0) where
  abbrev pub on_cluster : Invariant S
  on_cluster = record { holds = λ w. alive w.cluster; safe = safe; allows = allows }

  -- It is enough that reading the clock keeps them.
  pub cluster-IsQuiet :
      (p : Platform S) → ((s : S) → alive s → alive (p.now s).1) → IsQuiet on_cluster p
  cluster-IsQuiet p clock = record {
    clock = λ w. record { stays = clock w.cluster };
    measured = λ told w. record { stays = λ h. h };
  }

  module _ (p : Platform S) (laws : IsCluster on_cluster p) where
    pub cluster-Finishing : Finishing on_cluster p laws
    unfolding finish stop_timer read_clock
    cluster-Finishing type m t status w = record { stays = (laws.quiet.clock w).stays }

    pub cluster-Loading : (core : CoreClient S) → Loading on_cluster p laws core
    cluster-Loading core store w = record { stays = λ h. h }
