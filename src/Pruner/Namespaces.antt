-- ===== src/Pruner/Namespaces.antt =====
-- `runGarbageCollector` up to the start of the workers, and `getFilteredNamespaces`.
use tektoncd_pruner.Prelude.{String, ℤ, Bool, not, ◌&&◌, Option, none, some, List, keep}
use tektoncd_pruner.Go.Dict.{Dict}
use tektoncd_pruner.Go.Exec.{Exec, Result, ok, err, Error, continue}
use tektoncd_pruner.Go.Text.{has_prefix}
use tektoncd_pruner.Kube.Api.{Platform}
use tektoncd_pruner.Config.Spec.{GlobalConfig}
use tektoncd_pruner.Config.Store.{PrunerConfigStore, load_global_config}
use tektoncd_pruner.Config.Workers.{worker_count, default_worker_count}
use tektoncd_pruner.World.{World, call, read_clock}

-- `kubeClient.CoreV1()`, `os.Getenv` and the vendored `yaml.Unmarshal`
pub record CoreClient (S : Type 0) : Type 0 where
  -- the data of the ConfigMap of the pruner, in the namespace of the system
  pub get_config_map : Exec S (Dict String)
  pub list_namespaces : Exec S (List String)
  pub getenv : String → String
  pub unmarshal : String → Result GlobalConfig

-- the namespaces that are collected
unfoldable pub is_collected : String → Bool
is_collected name =
    not (has_prefix name "kube")
    && (not (has_prefix name "openshift") && not (has_prefix name "tekton"))

-- What the workers are started with.
pub record Collection : Type 0 where
  pub update_time : String
  pub namespaces : List String
  pub workers : ℤ

module _ {S : Type 0} (p : Platform S) (core : CoreClient S) where
  -- `getFilteredNamespaces`
  unfoldable pub get_filtered_namespaces : Exec (World S) (List String)
  unfolding is_collected call
  get_filtered_namespaces w =
      continue (λ names w'. (ok (keep is_collected names), w')) (call core.list_namespaces w)

  abbrev workers_or_default : Result ℤ → ℤ
  workers_or_default (err e) = default_worker_count
  workers_or_default (ok n) = n

  -- the namespaces and the number of workers, once the configuration is loaded
  unfoldable pub plan_collection : Dict String → Exec (World S) Collection
  unfolding get_filtered_namespaces read_clock worker_count
  plan_collection config_map w =
      let (now, w') = read_clock p w in
      continue
        (λ names w''. (
          ok (record {
            update_time = p.format_rfc3339 now;
            namespaces = names;
            workers = workers_or_default (worker_count core.getenv config_map);
          }),
          w'',
        ))
        (get_filtered_namespaces w')

  abbrev pub store_loaded :
      Dict String → Option Error × PrunerConfigStore → World S → Result Collection × World S
  store_loaded config_map (some e, store) w = (err e, record w { store = store })
  store_loaded config_map (none, store) w = plan_collection config_map (record w { store = store })

  -- `runGarbageCollector` up to the start of the workers; an error is logged and ends it
  unfoldable pub prepare_collection : Exec (World S) Collection
  unfolding plan_collection load_global_config call
  prepare_collection w =
      continue
        (λ config_map w'.
          store_loaded config_map (load_global_config core.unmarshal config_map w'.store) w')
        (call core.get_config_map w)
