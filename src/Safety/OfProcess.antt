-- ===== src/Safety/OfProcess.antt =====
-- Invariants of the configuration and the recorder alone: no call of the client can break them, so
-- they need no promise of the API server.
use tektoncd_pruner.Prelude.{String, Bool, List, [], ◌∷◌, All}
use tektoncd_pruner.Kube.Object.{pipeline_run, task_run, Object}
use tektoncd_pruner.Kube.Api.{Platform, RunClient}
use tektoncd_pruner.Config.Spec.{kind_pipeline_run, kind_task_run}
use tektoncd_pruner.Config.Store.{PrunerConfigStore}
use tektoncd_pruner.Metrics.{Recorder}
use tektoncd_pruner.Runs.PipelineRuns.{pr_is_completed}
use tektoncd_pruner.Runs.TaskRuns.{tr_is_completed}
use tektoncd_pruner.Pruner.Namespaces.{CoreClient}
use tektoncd_pruner.Safety.View.{Invariant, HandlerMeasure}
use tektoncd_pruner.Safety.Clients.{IsRunApi}
use tektoncd_pruner.Safety.Reconcilers.{IsCluster}
use tektoncd_pruner.Safety.Prepared.{IsCoreClient}

pub all_hold {ℓ} : {A : Type ℓ} {P : A → Type 0} → ((a : A) → P a) → (xs : List A) → All P xs
all_hold h [] = tt
all_hold h (x ∷ xs) = (h x, all_hold h xs)

module _ {S : Type 0} (alive : PrunerConfigStore → Recorder → Type 0) where
  -- Any run may be deleted.
  abbrev pub of_process : Invariant S
  of_process = record {
    holds = λ w. alive w.store w.recorder;
    safe = λ kind namespace name. Unit;
    allows = λ namespace. Unit;
  }

  process-IsRunApi :
      {Run : Type 0} (kind : String) (into : Run → Object) (is_completed : Object → Bool)
      (client : RunClient S Run)
      → IsRunApi of_process kind into is_completed client
  process-IsRunApi kind into is_completed client = record {
    getting = λ namespace name w. record { stays = λ h. h };
    got = λ namespace name w allowed here read completed. tt;
    listing = λ namespace selector w. record { stays = λ h. h };
    listed = λ namespace selector w {rs} allowed here read. all_hold (λ r completed. tt) rs;
    inside = λ namespace selector s {rs} allowed read. all_hold (λ r. tt) rs;
    read_inside = λ namespace name s allowed read. tt;
    patching = λ namespace name patch allowed w. record { stays = λ h. h };
    deleting = λ namespace name safe w. record { stays = λ h. h };
  }

  -- What the handlers tell the recorder is all that matters.
  pub process-IsCluster :
      (p : Platform S)
      → ((f : Recorder → Recorder)
          → HandlerMeasure f
          → (store : PrunerConfigStore) (r : Recorder) → alive store r
          → alive store (f r))
      → IsCluster of_process p
  process-IsCluster p told = record {
    quiet = record {
      clock = λ w. record { stays = λ h. h };
      measured = λ t w. record { stays = told _ t w.store w.recorder };
    };
    pipeline_runs =
        process-IsRunApi kind_pipeline_run pipeline_run (pr_is_completed p) p.pipeline_runs;
    task_runs = process-IsRunApi kind_task_run task_run (tr_is_completed p) p.task_runs;
  }

  pub process-IsCoreClient :
      (p : Platform S) (laws : IsCluster of_process p) (core : CoreClient S)
      → IsCoreClient of_process p laws core
  process-IsCoreClient p laws core = record {
    config_map = λ w. record { stays = λ h. h };
    namespaces = λ w. record { stays = λ h. h };
  }
