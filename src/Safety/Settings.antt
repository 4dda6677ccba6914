-- ===== src/Safety/Settings.antt =====
-- Which configuration is in force: that of the last ConfigMap that could be read.
use tektoncd_pruner.Prelude.{
  String, Option, none, some, ◌≡◌, ◌⊎◌, inl, inr, refl, ap, sym, subst, ◌==◌, if◌then◌else◌,
  Bool-cases,
}
use tektoncd_pruner.Go.Dict.{Dict, get}
use tektoncd_pruner.Go.Exec.{Result, ok, err, Error}
use tektoncd_pruner.Kube.Api.{Platform}
use tektoncd_pruner.Config.Spec.{GlobalConfig}
use tektoncd_pruner.Config.Store.{
  PrunerConfigStore, load_global_config, with_namespaces, pruner_global_config_key,
  empty_global_config, loaded,
}
use tektoncd_pruner.World.{World, call, read_clock}
use tektoncd_pruner.Pruner.Namespaces.{
  CoreClient, plan_collection, prepare_collection, store_loaded,
}
use tektoncd_pruner.Runs.Reconcile.{finish, stop_timer}
use tektoncd_pruner.Safety.View.{Invariant}
use tektoncd_pruner.Safety.Reconcilers.{
  IsCluster, Finishing, reconcile_pipeline_run-Spares, reconcile_task_run-Spares,
}
use tektoncd_pruner.Safety.OfProcess.{of_process, process-IsCluster, process-IsCoreClient}
use tektoncd_pruner.Safety.Collections.{collect_namespace-Spares}
use tektoncd_pruner.Safety.Prepared.{plan_collection-Spares}
use tektoncd_pruner.Safety.System.{Acts, pipeline_event, task_event, config_event, collection}

module _ {S : Type 0} (p : Platform S) (c : PrunerConfigStore) where
  -- The configuration is `c`.
  abbrev pub settings : Invariant S
  settings = of_process (λ store recorder. store ≡ c)

  pub settings-IsCluster : IsCluster settings p
  settings-IsCluster = process-IsCluster (λ store recorder. store ≡ c) p (λ f told store r h. h)

  settings-Finishing : Finishing settings p settings-IsCluster
  unfolding finish stop_timer read_clock
  settings-Finishing type m t status w = record { stays = λ h. h }

module _ {S : Type 0} (p : Platform S) (core : CoreClient S) where
  -- The configuration that the data of a ConfigMap stand for.
  pub read_config : Dict String → Result GlobalConfig
  read_config config_map = elim (get config_map pruner_global_config_key) [
    | none ↦ ok empty_global_config
    | some text ↦ if text == "" then ok empty_global_config else core.unmarshal text
  ]

  -- The configuration that the ConfigMap of a cluster sets, if it can be read.
  pub record Loads (s : S) (store : PrunerConfigStore) : Type 0 where
    pub config_map : Dict String
    pub config : GlobalConfig
    pub found : (core.get_config_map s).0 ≡ ok config_map
    pub read : read_config config_map ≡ ok config
    pub stored : store.global_config ≡ with_namespaces config

  plan_keeps_store :
      (config_map : Dict String) (w : World S)
      → (plan_collection p core config_map w).1.store ≡ w.store
  plan_keeps_store config_map w =
      (plan_collection-Spares (settings p w.store) p (settings-IsCluster p w.store) core
          (process-IsCoreClient _ p (settings-IsCluster p w.store) core) config_map w).stays
        refl

  load_step :
      (config_map : Dict String) (old : PrunerConfigStore) (text : Option String)
      → get config_map pruner_global_config_key ≡ text
      → load_global_config core.unmarshal config_map old ≡ loaded (read_config config_map) old
  unfolding load_global_config read_config
  load_step config_map old none e = rw (e, load_global_config, read_config) refl
  load_step config_map old (some text) e = elim (Bool-cases (text == "")) [
    | inl empty ↦ rw (e, load_global_config, read_config) (rw empty refl)
    | inr given ↦ rw (e, load_global_config, read_config) (rw given refl)
  ]

  -- What one loading does to the configuration.
  abbrev Change : S → PrunerConfigStore → PrunerConfigStore → Type 0
  Change s old new = (new ≡ old) ⊎ Loads s new

  loaded-Change :
      (s : S) (config_map : Dict String) (old : PrunerConfigStore) (r : Result GlobalConfig)
      → (core.get_config_map s).0 ≡ ok config_map
      → read_config config_map ≡ r
      → Change s old (loaded r old).1
  loaded-Change s config_map old (err e) found read = inl refl
  loaded-Change s config_map old (ok g) found read =
      inr
        (record { config_map = config_map; config = g; found = found; read = read; stored = refl })

  load-Change :
      (s : S) (config_map : Dict String) (old : PrunerConfigStore)
      → (core.get_config_map s).0 ≡ ok config_map
      → Change s old (load_global_config core.unmarshal config_map old).1
  load-Change s config_map old found =
      subst (λ q. Change s old q.1)
        (sym (load_step config_map old (get config_map pruner_global_config_key) refl))
        (loaded-Change s config_map old (read_config config_map) found refl)

  pub store_loaded_sets :
      (config_map : Dict String) (q : Option Error × PrunerConfigStore) (w : World S)
      → (store_loaded p core config_map q w).1.store ≡ q.1
  store_loaded_sets config_map (some e, store) w = refl
  store_loaded_sets config_map (none, store) w =
      plan_keeps_store config_map (record w { store = store })

  prepared-Change :
      (w : World S) (q : Result (Dict String) × S)
      → core.get_config_map w.cluster ≡ q
      → Change w.cluster w.store (prepare_collection p core w).1.store
  unfolding prepare_collection call
  prepared-Change w (err e, s) found = rw (found, prepare_collection, call) (inl refl)
  prepared-Change w (ok config_map, s) found =
      rw (found, prepare_collection, call)
        (subst (Change w.cluster w.store)
          (sym (
            store_loaded_sets config_map (load_global_config core.unmarshal config_map w.store)
              (record w { cluster = s })))
          (load-Change w.cluster config_map w.store (ap (λ q. q.0) found)))

  -- A history of the program in a cluster that others may change in any way.
  pub data Trace (w : World S) : World S → Type 0 where
    begins : Trace w w
    acts : {u v : World S} → Trace w u → Acts p core u v → Trace w v
    outside : {u : World S} (s : S) → Trace w u → Trace w (record u { cluster = s })

  -- In the world `u` of the history the program loaded the ConfigMap.
  pub data LoadedIn {w : World S} (u : World S) : (v : World S) → Trace w v → Type 0 where
    loading : (h : Trace w u) → LoadedIn u _ (acts h config_event)
    then_acts :
        {v v' : World S} {h : Trace w v} (step : Acts p core v v')
        → LoadedIn u _ h
        → LoadedIn u _ (acts h step)
    then_outside :
        {v : World S} {h : Trace w v} (s : S) → LoadedIn u _ h → LoadedIn u _ (outside s h)

  -- The store of `w`, or what one of the loadings of the history read.
  abbrev pub InForce : {w v : World S} → Trace w v → PrunerConfigStore → Type 0
  InForce {w} h store = (store ≡ w.store) ⊎ ((u : World S) × LoadedIn u _ h × Loads u.cluster store)

  InForce-acts :
      {w v v' : World S} (h : Trace w v) (step : Acts p core v v') {store : PrunerConfigStore}
      → InForce h store
      → InForce (acts h step) store
  InForce-acts h step (inl same) = inl same
  InForce-acts h step (inr (u, loaded, read)) = inr (u, then_acts step loaded, read)

  InForce-outside :
      {w v : World S} (h : Trace w v) (s : S) {store : PrunerConfigStore}
      → InForce h store
      → InForce (outside s h) store
  InForce-outside h s (inl same) = inl same
  InForce-outside h s (inr (u, loaded, read)) = inr (u, then_outside s loaded, read)

  -- Only the loading of a ConfigMap changes the configuration.
  step-InForce :
      {w v v' : World S} (h : Trace w v) (step : Acts p core v v')
      → (v'.store ≡ v.store) ⊎ (LoadedIn v _ (acts h step) × Loads v.cluster v'.store)
  step-InForce {v = w} h (pipeline_event pr) = inl (
      (reconcile_pipeline_run-Spares (settings p w.store) p (settings-IsCluster p w.store)
          (settings-Finishing p w.store) pr tt w).stays
        refl)
  step-InForce {v = w} h (task_event tr) = inl (
      (reconcile_task_run-Spares (settings p w.store) p (settings-IsCluster p w.store)
          (settings-Finishing p w.store) tr tt w).stays
        refl)
  step-InForce {v = w} h config_event =
      elim (prepared-Change w (core.get_config_map w.cluster) refl) [
        | inl same ↦ inl same
        | inr read ↦ inr (loading h, read)
      ]
  step-InForce {v = w} h (collection update_time namespace) = inl (
      (collect_namespace-Spares (settings p w.store) p (settings-IsCluster p w.store) update_time
          namespace w tt).stays
        refl)

  -- At any time of a history the configuration in force is the one that the program started with, or
  -- the one that the ConfigMap stood for in a state of this same history in which the program loaded
  -- it. Whatever cannot be read never comes into force.
  pub configuration_was_read : {w v : World S} (h : Trace w v) → InForce h v.store
  configuration_was_read begins = inl refl
  configuration_was_read (outside s h) = InForce-outside h s (configuration_was_read h)
  configuration_was_read (acts h step) = elim (step-InForce h step) [
    | inr (loaded, read) ↦ inr (_, loaded, read)
    | inl same ↦
        subst (InForce (acts h step)) (sym same) (InForce-acts h step (configuration_was_read h))
  ]
