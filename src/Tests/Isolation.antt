-- ===== src/Tests/Isolation.antt =====
-- A cluster of two completed PipelineRuns, "build" in the namespace "ns" and "sync" in "kube-system",
-- under a configuration that keeps no successful run.
use tektoncd_pruner.Prelude.{
  String, pos, Bool, true, false, not, ◌&&◌, Bool-cases, some, List, [], ◌∷◌, ◌≡◌, ◌≢◌, refl, ap,
  subst, inl, inr, arith, All, All-map, ◌==◌, eq_iff,
}
use tektoncd_pruner.Go.Exec.{ok, err, Result}
use tektoncd_pruner.Kube.Object.{PipelineRun, TaskRun, pipeline_run, task_run, meta}
use tektoncd_pruner.Kube.Api.{Platform, RunClient}
use tektoncd_pruner.Config.Spec.{GlobalConfig, empty_config, level_global}
use tektoncd_pruner.Config.Level.{get_pipeline_enforced_config_level}
use tektoncd_pruner.Config.Store.{get_pipeline_success_history_limit_count}
use tektoncd_pruner.Runs.PipelineRuns.{
  pr_is_completed, pr_list, pr_is_successful, pr_delete, pr_get,
}
use tektoncd_pruner.World.{World}
use tektoncd_pruner.Pruner.Collect.{collect_namespace}
use tektoncd_pruner.Pruner.Pool.{Reach, start, later, receive, complete}
use tektoncd_pruner.Pruner.Namespaces.{CoreClient, Collection, prepare_collection}
use tektoncd_pruner.Safety.View.{Invariant, Spares-refl}
use tektoncd_pruner.Safety.OnCluster.{cluster-IsQuiet}
use tektoncd_pruner.Safety.Reconcilers.{IsCluster}
use tektoncd_pruner.Safety.Prepared.{IsCoreClient}
use tektoncd_pruner.Safety.Isolation.{isolation, system_namespaces_are_left_alone}
use tektoncd_pruner.Tests.Fixture.{platform, no_client, meta_of, world_of}
use tektoncd_pruner.Tests.Runs.{decided}

record Runs : Type 0 where
  build_there : Bool
  sync_there : Bool

abbrev build : PipelineRun
build = record {
  metadata = meta_of "build" 1;
  spec_status = "";
  status = record decided { completion_time = some (pos 6) };
}

abbrev sync : PipelineRun
sync = record build { metadata = record (meta_of "sync" 2) { namespace = "kube-system" } }

abbrev listed_runs : Bool → Bool → List PipelineRun
listed_runs true true = build ∷ sync ∷ []
listed_runs true false = build ∷ []
listed_runs false true = sync ∷ []
listed_runs false false = []

abbrev client : RunClient Runs PipelineRun
client = record no_client {
  list = λ namespace selector s. (
    ok (
        listed_runs (namespace == "ns" && s.build_there)
          (namespace == "kube-system" && s.sync_there)),
    s,
  );
  delete = λ namespace name s. (
    ok tt,
    record {
      build_there = s.build_there && not (namespace == "ns" && name == "build");
      sync_there = s.sync_there && not (namespace == "kube-system" && name == "sync");
    },
  );
  patch = λ namespace name patch s. (ok tt, s);
}

abbrev cluster_platform : Platform Runs
cluster_platform = record platform { pipeline_runs = client }

abbrev system_runs : Invariant Runs
system_runs = isolation "kube-system" (λ s. s.sync_there ≡ true)

abbrev value_or {ℓ} : {A : Type ℓ} → A → Result A → A
value_or d (ok a) = a
value_or d (err e) = d

is_other : (namespace : String) → namespace ≢ "kube-system" → (namespace == "kube-system") ≡ false
is_other namespace other = elim (Bool-cases (namespace == "kube-system")) [
  | inl same ↦ absurd (other (ground (arith, same, eq_iff namespace "kube-system")))
  | inr away ↦ away
]

inside_listed :
    (b d : Bool)
    → d ≡ false
    → All (λ r. (meta (pipeline_run r)).namespace ≢ "kube-system") (listed_runs b d)
inside_listed true false e =
    ((λ same. absurd (ground (arith, same, eq_iff "ns" "kube-system"))), tt)
inside_listed false false e = tt
inside_listed b true e = absurd (ground arith)

module _ (namespace : String) (s : Runs) where
  inside_client :
      {rs : List PipelineRun} {s' : Runs}
      → namespace ≢ "kube-system"
      → client.list namespace "" s ≡ (ok rs, s')
      → All (λ r. (meta (pipeline_run r)).namespace ≢ "kube-system") rs
  inside_client other h = subst (All _) (ap (λ q. value_or [] q.0) h) (
      inside_listed (namespace == "ns" && s.build_there)
        (namespace == "kube-system" && s.sync_there) (ground (arith, is_other namespace other)))

  inside_none :
      {rs : List TaskRun} {s' : Runs}
      → platform.task_runs.list namespace "" s ≡ (ok rs, s')
      → All (λ r. (meta (task_run r)).namespace ≢ "kube-system") rs
  inside_none h = subst (All _) (ap (λ q. value_or [] q.0) h) tt

cluster_laws : IsCluster system_runs cluster_platform
cluster_laws = record {
  quiet = cluster-IsQuiet _ _ _ _ (λ s h. h);
  pipeline_runs = record {
    getting = λ namespace name w. Spares-refl system_runs w;
    got = λ namespace name s allowed here h completed. allowed;
    listing = λ namespace selector w. Spares-refl system_runs w;
    listed = λ namespace selector w {rs} allowed here h.
        All-map _ _ (λ r other completed. other) rs (inside_client namespace w.cluster allowed h);
    inside = λ namespace selector s allowed h. inside_client namespace s allowed h;
    read_inside = λ namespace name s allowed h. absurd (ground (arith, ap (λ q. q.0) h));
    patching = λ namespace name patch allowed w. Spares-refl system_runs w;
    deleting = λ namespace name other w. record {
      stays = λ here. ground (arith, here, is_other namespace other);
    };
  };
  task_runs = record {
    getting = λ namespace name w. Spares-refl system_runs w;
    got = λ namespace name s allowed here h completed. allowed;
    listing = λ namespace selector w. Spares-refl system_runs w;
    listed = λ namespace selector w {rs} allowed here h.
        All-map _ _ (λ r other completed. other) rs (inside_none namespace w.cluster h);
    inside = λ namespace selector s allowed h. inside_none namespace s h;
    read_inside = λ namespace name s allowed h. absurd (ground (arith, ap (λ q. q.0) h));
    patching = λ namespace name patch allowed w. Spares-refl system_runs w;
    deleting = λ namespace name other w. Spares-refl system_runs w;
  };
}

abbrev keep_none : GlobalConfig
keep_none = record {
  config = record empty_config {
    enforced_config_level = some level_global;
    successful_history_limit = some (pos 0);
  };
  namespaces = some [];
}

abbrev core : CoreClient Runs
core = record {
  get_config_map = λ s. (ok (some (("global-config", "successfulHistoryLimit: 0") ∷ [])), s);
  list_namespaces = λ s. (ok ("ns" ∷ "kube-system" ∷ []), s);
  getenv = λ key. "";
  unmarshal = λ text. ok keep_none;
}

core_laws : IsCoreClient system_runs cluster_platform cluster_laws core
core_laws = record {
  config_map = λ w. Spares-refl system_runs w;
  namespaces = λ w. Spares-refl system_runs w;
}

abbrev before : World Runs
before = world_of (record { build_there = true; sync_there = true })

abbrev loaded_world : World Runs
loaded_world = record before { store = record { global_config = keep_none } }

abbrev planned : Collection
planned = record { update_time = "12:00"; namespaces = "ns" ∷ []; workers = pos 5 }

is_prepared : prepare_collection cluster_platform core before ≡ (ok planned, loaded_world)
unfolding prepare_collection
is_prepared = refl

abbrev collected : World Runs
collected = collect_namespace cluster_platform "12:00" "ns" loaded_world

build_is_deleted : collected.cluster.build_there ≡ false
unfolding collect_namespace get_pipeline_enforced_config_level
    get_pipeline_success_history_limit_count pr_list pr_is_completed pr_is_successful pr_delete
    pr_get
build_is_deleted = refl

all_collected :
    Reach
      (collect_namespace cluster_platform "12:00")
      ("ns" ∷ [])
      (pos 5)
      loaded_world
      (record { pending = []; idle = 5; busy = []; finished = "ns" ∷ []; world = collected })
all_collected = later (later start (receive refl refl)) (complete [] [] refl)

system_namespaces_are_left_alone_example : collected.cluster.sync_there ≡ true
system_namespaces_are_left_alone_example =
    system_namespaces_are_left_alone "kube-system" (λ s. s.sync_there ≡ true) cluster_platform
      cluster_laws core core_laws refl before is_prepared all_collected refl
