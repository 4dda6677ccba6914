-- ===== src/Safety/Prepared.antt =====
-- What the start of a garbage collection, the reading of the ConfigMap and the listing of the
-- namespaces, does to an invariant of the cluster.
use tektoncd_pruner.Prelude.{String, Option, none, some, keep}
use tektoncd_pruner.Go.Dict.{Dict}
use tektoncd_pruner.Go.Exec.{ok, Error}
use tektoncd_pruner.Kube.Api.{Platform}
use tektoncd_pruner.Config.Store.{PrunerConfigStore, load_global_config}
use tektoncd_pruner.World.{World, call, read_clock}
use tektoncd_pruner.Pruner.Namespaces.{
  CoreClient, is_collected, get_filtered_namespaces, plan_collection, prepare_collection,
  store_loaded,
}
use tektoncd_pruner.Safety.View.{
  Invariant, Spares, Spares-refl, Spares-trans, Sparing, read_clock-Spares, continue-Spares,
}
use tektoncd_pruner.Safety.Reconcilers.{IsCluster}

module _ {S : Type 0} (inv : Invariant S) (p : Platform S) (laws : IsCluster inv p) where
  module _ (core : CoreClient S) where
    -- What the API server promises of the calls that a collection starts with.
    pub record IsCoreClient : Type 0 where
      pub config_map :
          (w : World S) → Spares inv w (record w { cluster = (core.get_config_map w.cluster).1 })
      pub namespaces :
          (w : World S) → Spares inv w (record w { cluster = (core.list_namespaces w.cluster).1 })

    -- The invariant does not depend on the configuration.
    abbrev pub Loading : Type 0
    Loading = (store : PrunerConfigStore) (w : World S) → Spares inv w (record w { store = store })

    module _ (core_laws : IsCoreClient) where
      get_filtered_namespaces-Spares : Sparing inv (get_filtered_namespaces p core)
      unfolding get_filtered_namespaces call
      get_filtered_namespaces-Spares w =
          continue-Spares inv (λ names v. (ok (keep is_collected names), v))
            (call core.list_namespaces w) (core_laws.namespaces w) (λ names _. Spares-refl inv _)

      pub plan_collection-Spares :
          (config_map : Dict String) → Sparing inv (plan_collection p core config_map)
      unfolding plan_collection
      plan_collection-Spares config_map w =
          Spares-trans inv (read_clock-Spares inv p laws.quiet w) (
            continue-Spares inv _ (get_filtered_namespaces p core (read_clock p w).1)
              (get_filtered_namespaces-Spares (read_clock p w).1) (λ names _. Spares-refl inv _))

      store_loaded-Spares :
          Loading
          → (config_map : Dict String) (q : Option Error × PrunerConfigStore) (w : World S)
          → Spares inv w (store_loaded p core config_map q w).1
      store_loaded-Spares loading config_map (some e, store) w = loading store w
      store_loaded-Spares loading config_map (none, store) w =
          Spares-trans inv (loading store w)
            (plan_collection-Spares config_map (record w { store = store }))

      pub prepare_collection-Spares : Loading → Sparing inv (prepare_collection p core)
      unfolding prepare_collection call
      prepare_collection-Spares loading w =
          continue-Spares inv
            (λ config_map v.
              store_loaded p core config_map (load_global_config core.unmarshal config_map v.store)
                v)
            (call core.get_config_map w) (core_laws.config_map w)
            (λ config_map _. store_loaded-Spares loading config_map _ _)
