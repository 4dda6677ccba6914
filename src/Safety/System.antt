-- ===== src/Safety/System.antt =====
-- The whole program in a cluster that others change too: the reconciliations of both kinds of run,
-- the loading of the ConfigMap and the collection of a namespace are its steps, in any order, for
-- any copies of runs.
use tektoncd_pruner.Prelude.{String, ℤ, Bool, true, List, [], ◌∷◌, All, ◌≡◌}
use tektoncd_pruner.Kube.Object.{PipelineRun, TaskRun}
use tektoncd_pruner.Kube.Api.{Platform}
use tektoncd_pruner.World.{World}
use tektoncd_pruner.Runs.States.{pr_limiter, tr_limiter, pr_handler, tr_handler}
use tektoncd_pruner.Runs.Reconcile.{reconcile_pipeline_run, reconcile_task_run}
use tektoncd_pruner.Pruner.Collect.{collect_namespace}
use tektoncd_pruner.Pruner.Namespaces.{CoreClient, prepare_collection}
use tektoncd_pruner.Pruner.Pool.{Pool, Reach}
use tektoncd_pruner.Safety.View.{Invariant, Spares}
use tektoncd_pruner.Safety.Reconcilers.{
  IsCluster, Finishing, reconcile_pipeline_run-Spares, reconcile_task_run-Spares,
}
use tektoncd_pruner.Safety.OnCluster.{on_cluster, cluster-Finishing, cluster-Loading}
use tektoncd_pruner.Safety.Workers.{collection-Spares}
use tektoncd_pruner.Safety.Collections.{collect_namespace-Spares}
use tektoncd_pruner.Safety.Prepared.{IsCoreClient, Loading, prepare_collection-Spares}

-- A run, and whether it is there and not completed.
pub record Watched (S : Type 0) : Type 0 where
  pub kind : String
  pub namespace : String
  pub name : String
  pub unfinished : S → Bool

-- The run is there and not completed, and all others may be deleted.
abbrev pub survival : {S : Type 0} → Watched S → Invariant S
survival run =
    on_cluster (λ s. run.unfinished s ≡ true)
      (λ kind namespace name.
        ¬ ((kind ≡ run.kind) × (namespace ≡ run.namespace) × (name ≡ run.name)))
      (λ namespace. Unit)

module _ {S : Type 0} (p : Platform S) (core : CoreClient S) where
  -- One step of the program, whatever it returns.
  pub data Acts (w : World S) : World S → Type 0 where
    pipeline_event :
        (pr : PipelineRun) → Acts w (reconcile_pipeline_run p (pr_limiter p) (pr_handler p) pr w).1
    task_event : (tr : TaskRun) → Acts w (reconcile_task_run p (tr_limiter p) (tr_handler p) tr w).1
    config_event : Acts w (prepare_collection p core w).1
    collection :
        (update_time namespace : String) → Acts w (collect_namespace p update_time namespace w)

  module _ (run : Watched S) where
    -- A history of the cluster, in which others may do anything but end or delete the run.
    pub data Timeline (w : World S) : World S → Type 0 where
      begins : Timeline w w
      acts : {u v : World S} → Timeline w u → Acts u v → Timeline w v
      outside :
          {u : World S} (s : S)
          → Timeline w u
          → Spares (survival run) u (record u { cluster = s })
          → Timeline w (record u { cluster = s })

module _ {S : Type 0} (run : Watched S) (p : Platform S) (laws : IsCluster (survival run) p) where
  finishing : Finishing (survival run) p laws
  finishing =
      cluster-Finishing (λ s. run.unfinished s ≡ true) (survival run).safe (survival run).allows p
        laws

  loading : (core : CoreClient S) → Loading (survival run) p laws core
  loading =
      cluster-Loading (λ s. run.unfinished s ≡ true) (survival run).safe (survival run).allows p
        laws

module _ {S : Type 0} (run : Watched S) (p : Platform S) (laws : IsCluster (survival run) p)
    (core : CoreClient S) (core_laws : IsCoreClient (survival run) p laws core) where
  Acts-Spares : {w v : World S} → Acts p core w v → Spares (survival run) w v
  Acts-Spares {w} (pipeline_event pr) =
      reconcile_pipeline_run-Spares (survival run) p laws (finishing run p laws) pr tt w
  Acts-Spares {w} (task_event tr) =
      reconcile_task_run-Spares (survival run) p laws (finishing run p laws) tr tt w
  Acts-Spares {w} config_event =
      prepare_collection-Spares (survival run) p laws core core_laws (loading run p laws core) w
  Acts-Spares {w} (collection update_time namespace) =
      collect_namespace-Spares (survival run) p laws update_time namespace w tt

  -- With an API server that keeps to `IsCluster` and `IsCoreClient`: a run that is not completed is
  -- there, and not completed, after every history of the cluster in which others neither end nor
  -- delete it. The reconcilers and the garbage collection never delete it, in whatever order they
  -- act, whichever copies of runs they get, whatever errors they meet, and whatever others do to
  -- other runs between and during their calls.
  pub unfinished_run_survives :
      {w v : World S}
      → Timeline p core run w v
      → run.unfinished w.cluster ≡ true
      → run.unfinished v.cluster ≡ true
  unfinished_run_survives begins there = there
  unfinished_run_survives (acts h step) there =
      (Acts-Spares step).stays (unfinished_run_survives h there)
  unfinished_run_survives (outside s h spares) there =
      spares.stays (unfinished_run_survives h there)

module _ {S : Type 0} (run : Watched S) (p : Platform S) (laws : IsCluster (survival run) p) where
  -- With an API server that keeps to `IsCluster`: a run that is not completed when a garbage
  -- collection starts is there, and not completed, at any time of it, whatever the order in which
  -- its workers end.
  pub collection_keeps_unfinished :
      (update_time : String) (namespaces : List String) (workers : ℤ) (w : World S)
      {s : Pool (World S)}
      → Reach (collect_namespace p update_time) namespaces workers w s
      → run.unfinished w.cluster ≡ true
      → run.unfinished s.world.cluster ≡ true
  collection_keeps_unfinished update_time namespaces workers w r =
      (collection-Spares (survival run) p laws update_time namespaces workers w
        (all_units namespaces) r).stays
    where
      all_units : (names : List String) → All (λ name. Unit {0}) names
      all_units [] = tt
      all_units (name ∷ names) = (tt, all_units names)
