-- ===== src/Safety/Isolation.antt =====
-- A namespace that the garbage collection does not select, and a whole collection: from the reading of
-- the configuration and the listing of the namespaces on, to any time of its workers.
use tektoncd_pruner.Prelude.{
  String, true, false, ◌||◌, Option, none, some, List, ◌≡◌, ◌≢◌, refl, ap, subst, arith, All,
  All-keep, All-map,
}
use tektoncd_pruner.Go.Dict.{Dict}
use tektoncd_pruner.Go.Text.{has_prefix}
use tektoncd_pruner.Go.Exec.{Result, ok, err, Error, continue}
use tektoncd_pruner.Kube.Api.{Platform}
use tektoncd_pruner.Config.Store.{PrunerConfigStore}
use tektoncd_pruner.World.{World, call, read_clock}
use tektoncd_pruner.Pruner.Collect.{collect_namespace}
use tektoncd_pruner.Pruner.Namespaces.{
  CoreClient, Collection, is_collected, get_filtered_namespaces, plan_collection,
  prepare_collection, store_loaded,
}
use tektoncd_pruner.Pruner.Pool.{Pool, Reach}
use tektoncd_pruner.Safety.View.{Invariant}
use tektoncd_pruner.Safety.Reconcilers.{IsCluster}
use tektoncd_pruner.Safety.OnCluster.{on_cluster, cluster-Loading}
use tektoncd_pruner.Safety.Workers.{collection-Spares}
use tektoncd_pruner.Safety.Prepared.{IsCoreClient, prepare_collection-Spares}

-- What is to hold of the runs of a namespace; those of the others are dealt with and may be deleted.
abbrev pub isolation : {S : Type 0} → String → (S → Type 0) → Invariant S
isolation namespace intact =
    on_cluster intact (λ kind other name. other ≢ namespace) (λ other. other ≢ namespace)

-- What a call returned has a property, if it returned no error.
abbrev Yields {ℓ} : {A : Type ℓ} → (A → Type 0) → Result A → Type 0
Yields P (ok a) = P a
Yields P (err e) = Unit

module _ {ℓ κ ρ} {W : Type ℓ} {A : Type κ} {B : Type ρ} where
  continue-Yields :
      (Q : B → Type 0) (f : A → W → Result B × W) (q : Result A × W)
      → ((a : A) → q.0 ≡ ok a → Yields Q (f a q.1).0)
      → Yields Q (continue f q).0
  continue-Yields Q f (ok a, w) k = k a refl
  continue-Yields Q f (err e, w) k = tt

abbrev Selected : List String → Type 0
Selected names = All (λ name. is_collected name ≡ true) names

abbrev SelectedIn : Collection → Type 0
SelectedIn c = Selected c.namespaces

module _ {S : Type 0} (p : Platform S) (core : CoreClient S) where
  get_filtered_namespaces-Selected :
      (w : World S) → Yields Selected (get_filtered_namespaces p core w).0
  unfolding get_filtered_namespaces
  get_filtered_namespaces-Selected w =
      continue-Yields Selected _ (call core.list_namespaces w)
        (λ names e. All-keep is_collected names)

  plan_collection-SelectedIn :
      (config_map : Dict String) (w : World S)
      → Yields SelectedIn (plan_collection p core config_map w).0
  unfolding plan_collection
  plan_collection-SelectedIn config_map w =
      continue-Yields SelectedIn _ (get_filtered_namespaces p core (read_clock p w).1)
        (λ names e. subst (Yields Selected) e (get_filtered_namespaces-Selected (read_clock p w).1))

  store_loaded-SelectedIn :
      (config_map : Dict String) (q : Option Error × PrunerConfigStore) (w : World S)
      → Yields SelectedIn (store_loaded p core config_map q w).0
  store_loaded-SelectedIn config_map (some e, store) w = tt
  store_loaded-SelectedIn config_map (none, store) w =
      plan_collection-SelectedIn config_map (record w { store = store })

  prepare_collection-SelectedIn : (w : World S) → Yields SelectedIn (prepare_collection p core w).0
  unfolding prepare_collection
  prepare_collection-SelectedIn w =
      continue-Yields SelectedIn _ (call core.get_config_map w)
        (λ config_map e. store_loaded-SelectedIn config_map _ _)

-- a namespace of Kubernetes, of OpenShift or of Tekton
abbrev pub IsSystem : String → Type 0
IsSystem namespace =
    has_prefix namespace "kube"
      || (has_prefix namespace "openshift" || has_prefix namespace "tekton")
    ≡ true

system_not_collected : (namespace : String) → IsSystem namespace → is_collected namespace ≡ false
unfolding is_collected
system_not_collected namespace system = ground (arith, system)

module _ {S : Type 0} (namespace : String) (intact : S → Type 0) (p : Platform S)
    (laws : IsCluster (isolation namespace intact) p) (core : CoreClient S)
    (core_laws : IsCoreClient (isolation namespace intact) p laws core) where
  selected_is_other :
      IsSystem namespace → (other : String) → is_collected other ≡ true → other ≢ namespace
  selected_is_other system other selected same =
      absurd (ground (arith, system_not_collected namespace system, selected, ap is_collected same))

  -- With an API server that keeps to `IsCluster` and `IsCoreClient`: where the name of a namespace
  -- begins with "kube", "openshift" or "tekton", a garbage collection deletes none of its runs. What
  -- holds of them when the collection starts, and is only broken by deleting one of them, holds at
  -- any time of its workers, whatever namespaces the cluster lists.
  pub system_namespaces_are_left_alone :
      IsSystem namespace
      → (w : World S) {c : Collection} {w' : World S} {s : Pool (World S)}
      → prepare_collection p core w ≡ (ok c, w')
      → Reach (collect_namespace p c.update_time) c.namespaces c.workers w' s
      → intact w.cluster
      → intact s.world.cluster
  system_namespaces_are_left_alone system w {c} {w'} {s} e r here =
      (collection-Spares (isolation namespace intact) p laws c.update_time c.namespaces c.workers w'
          (All-map (λ name. is_collected name ≡ true) (isolation namespace intact).allows
            (selected_is_other system) c.namespaces
            (subst (Yields SelectedIn) (ap (λ q. q.0) e) (prepare_collection-SelectedIn p core w)))
          r).stays
        (subst (λ q. intact q.1.cluster) e
          ((prepare_collection-Spares (isolation namespace intact) p laws core core_laws
              (cluster-Loading intact (isolation namespace intact).safe
                (isolation namespace intact).allows p laws core)
              w).stays
            here))
