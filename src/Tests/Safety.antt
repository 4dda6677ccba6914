-- ===== src/Tests/Safety.antt =====
-- A cluster of two PipelineRuns, of which "build" is completed and "deploy" is not, under a
-- configuration that keeps no successful run.
use tektoncd_pruner.Prelude.{
  String, pos, Bool, true, false, not, ◌&&◌, Bool-cases, none, some, List, [], ◌∷◌, ◌≡◌, refl, ap,
  sym, subst, inl, inr, arith, All, ◌==◌, eq_iff,
}
use tektoncd_pruner.Go.Exec.{Result, ok, err, api, not_found}
use tektoncd_pruner.Kube.Object.{PipelineRun, pipeline_run}
use tektoncd_pruner.Kube.Api.{Platform, RunClient}
use tektoncd_pruner.Config.Spec.{empty_config, level_global, kind_pipeline_run}
use tektoncd_pruner.Metrics.{new_recorder}
use tektoncd_pruner.World.{World}
use tektoncd_pruner.Runs.PipelineRuns.{
  pr_is_completed, pr_list, pr_is_successful, pr_delete, pr_get,
}
use tektoncd_pruner.Runs.Reconcile.{reconcile_pipeline_run}
use tektoncd_pruner.Config.Level.{get_pipeline_enforced_config_level}
use tektoncd_pruner.Config.Store.{get_pipeline_success_history_limit_count}
use tektoncd_pruner.Runs.States.{pr_limiter, pr_handler}
use tektoncd_pruner.Pruner.Collect.{collect_namespace}
use tektoncd_pruner.Pruner.Pool.{Reach, start, later, receive, complete}
use tektoncd_pruner.Pruner.Namespaces.{CoreClient}
use tektoncd_pruner.Safety.View.{IsSafeObject, Spares-refl}
use tektoncd_pruner.Safety.OnCluster.{cluster-IsQuiet}
use tektoncd_pruner.Safety.Reconcilers.{IsCluster}
use tektoncd_pruner.Safety.Prepared.{IsCoreClient}
use tektoncd_pruner.Safety.System.{
  Watched, survival, begins, acts, outside, pipeline_event, collection, unfinished_run_survives,
  collection_keeps_unfinished,
}
use tektoncd_pruner.Tests.Fixture.{platform, no_client, meta_of}
use tektoncd_pruner.Tests.Runs.{decided}

record TwoRuns : Type 0 where
  build_there : Bool
  deploy_there : Bool

abbrev build : PipelineRun
build = record { metadata = meta_of "build" 1; spec_status = ""; status = decided }

abbrev deploy : PipelineRun
deploy = record {
  metadata = meta_of "deploy" 2;
  spec_status = "";
  status = record { start_time = some (pos 5); completion_time = none; conditions = [] };
}

abbrev is_key : String → String → String → Bool
is_key wanted namespace name = namespace == "ns" && name == wanted

abbrev listed_runs : Bool → Bool → List PipelineRun
listed_runs true true = build ∷ deploy ∷ []
listed_runs true false = build ∷ []
listed_runs false true = deploy ∷ []
listed_runs false false = []

abbrev found_run : Bool → Bool → Result PipelineRun
found_run true is_deploy = ok build
found_run false true = ok deploy
found_run false false = err (api not_found)

abbrev two_client : RunClient TwoRuns PipelineRun
two_client = record no_client {
  get = λ namespace name s. (
    found_run (is_key "build" namespace name && s.build_there)
        (is_key "deploy" namespace name && s.deploy_there),
    s,
  );
  list = λ namespace selector s. (
    ok (listed_runs (namespace == "ns" && s.build_there) (namespace == "ns" && s.deploy_there)),
    s,
  );
  delete = λ namespace name s. (
    ok tt,
    record {
      build_there = s.build_there && not (is_key "build" namespace name);
      deploy_there = s.deploy_there && not (is_key "deploy" namespace name);
    },
  );
  patch = λ namespace name patch s. (ok tt, s);
}

abbrev two_platform : Platform TwoRuns
two_platform = record platform { pipeline_runs = two_client }

-- The run to be spared.
abbrev deployment : Watched TwoRuns
deployment = record {
  kind = kind_pipeline_run;
  namespace = "ns";
  name = "deploy";
  unfinished = λ s. s.deploy_there;
}

abbrev value_or {ℓ} : {A : Type ℓ} → A → Result A → A
value_or d (ok a) = a
value_or d (err e) = d

deploy_running : pr_is_completed two_platform (pipeline_run deploy) ≡ true → ⊥
unfolding pr_is_completed
deploy_running h = ground arith

found_deploy :
    (d : Bool) {r : PipelineRun}
    → d ≡ true
    → found_run false d ≡ ok r
    → pr_is_completed two_platform (pipeline_run r) ≡ true
    → ⊥
found_deploy true alive h completed = deploy_running (
    subst (λ r. pr_is_completed two_platform (pipeline_run r) ≡ true) (sym (ap (value_or deploy) h))
      completed)
found_deploy false alive h completed = absurd (ground arith)

two_got :
    (namespace name : String) (s : TwoRuns) {r : PipelineRun} {s' : TwoRuns}
    → Unit {0}
    → s.deploy_there ≡ true
    → two_client.get namespace name s ≡ (ok r, s')
    → pr_is_completed two_platform (pipeline_run r) ≡ true
    → (survival deployment).safe kind_pipeline_run namespace name
two_got namespace name s {r} allowed alive h completed (_, e, f) =
    found_deploy s.deploy_there alive
      (subst
        (λ x.
          found_run (is_key "build" "ns" x && s.build_there)
            (is_key "deploy" "ns" x && s.deploy_there)
          ≡ ok r)
        f
        (subst
          (λ x.
            found_run (is_key "build" x name && s.build_there)
              (is_key "deploy" x name && s.deploy_there)
            ≡ ok r)
          e (ap (λ q. q.0) h)))
      completed

build_is_other : IsSafeObject (survival deployment) kind_pipeline_run (pipeline_run build)
build_is_other (_, _, e) = absurd (ground (arith, eq_iff "build" "deploy"))

abbrev OnlyOthers : PipelineRun → Type 0
OnlyOthers r =
    pr_is_completed two_platform (pipeline_run r) ≡ true
    → IsSafeObject (survival deployment) kind_pipeline_run (pipeline_run r)

of_listed : (b d : Bool) → All OnlyOthers (listed_runs b d)
of_listed true true = ((λ c. build_is_other), ((λ c. absurd (deploy_running c)), tt))
of_listed true false = ((λ c. build_is_other), tt)
of_listed false true = ((λ c. absurd (deploy_running c)), tt)
of_listed false false = tt

two_listed :
    (namespace selector : String) (s : TwoRuns) {rs : List PipelineRun} {s' : TwoRuns}
    → Unit {0}
    → s.deploy_there ≡ true
    → two_client.list namespace selector s ≡ (ok rs, s')
    → All OnlyOthers rs
two_listed namespace selector s allowed alive h =
    subst (All OnlyOthers) (ap (λ q. value_or [] q.0) h)
      (of_listed (namespace == "ns" && s.build_there) (namespace == "ns" && s.deploy_there))

other_key :
    (namespace name : String)
    → (survival deployment).safe kind_pipeline_run namespace name
    → is_key "deploy" namespace name ≡ false
other_key namespace name other = elim (Bool-cases (is_key "deploy" namespace name)) [
  | inl own ↦ absurd (
      other (
        refl,
        ground (arith, own, eq_iff namespace "ns"),
        ground (arith, own, eq_iff name "deploy"),
      ))
  | inr away ↦ away
]

all_allowed : {Run : Type 0} (rs : List Run) → All (λ r. Unit {0}) rs
all_allowed [] = tt
all_allowed (r ∷ rs) = (tt, all_allowed rs)

two_laws : IsCluster (survival deployment) two_platform
two_laws = record {
  quiet = cluster-IsQuiet _ _ _ _ (λ s h. h);
  pipeline_runs = record {
    getting = λ namespace name w. Spares-refl (survival deployment) w;
    got = λ namespace name w. two_got namespace name w.cluster;
    listing = λ namespace selector w. Spares-refl (survival deployment) w;
    listed = λ namespace selector w. two_listed namespace selector w.cluster;
    inside = λ namespace selector s {rs} allowed h. all_allowed rs;
    read_inside = λ namespace name s allowed read. tt;
    patching = λ namespace name patch allowed w. Spares-refl (survival deployment) w;
    deleting = λ namespace name other s. record {
      stays = λ alive. ground (arith, alive, other_key namespace name other);
    };
  };
  task_runs = record {
    getting = λ namespace name w. Spares-refl (survival deployment) w;
    got = λ namespace name s allowed alive h completed (e, _, _).
        absurd (ground (arith, eq_iff "TaskRun" "PipelineRun"));
    listing = λ namespace selector w. Spares-refl (survival deployment) w;
    listed = λ namespace selector s allowed alive h. subst (All _) (ap (λ q. value_or [] q.0) h) tt;
    inside = λ namespace selector s {rs} allowed h. all_allowed rs;
    read_inside = λ namespace name s allowed read. tt;
    patching = λ namespace name patch allowed w. Spares-refl (survival deployment) w;
    deleting = λ namespace name other w. Spares-refl (survival deployment) w;
  };
}

abbrev two_core : CoreClient TwoRuns
two_core = record {
  get_config_map = λ s. (ok none, s);
  list_namespaces = λ s. (ok ("ns" ∷ []), s);
  getenv = λ key. "";
  unmarshal = λ text. err (api not_found);
}

two_core_laws : IsCoreClient (survival deployment) two_platform two_laws two_core
two_core_laws = record {
  config_map = λ w. Spares-refl (survival deployment) w;
  namespaces = λ w. Spares-refl (survival deployment) w;
}

abbrev both : World TwoRuns
both = record {
  cluster = record { build_there = true; deploy_there = true };
  store = record {
    global_config = record {
      config = record empty_config {
        enforced_config_level = some level_global;
        successful_history_limit = some (pos 0);
      };
      namespaces = none;
    };
  };
  recorder = new_recorder;
}

abbrev after_build : World TwoRuns
after_build =
    (reconcile_pipeline_run two_platform (pr_limiter two_platform) (pr_handler two_platform) build
      both).1

build_is_deleted : after_build.cluster ≡ record { build_there = false; deploy_there = true }
unfolding reconcile_pipeline_run get_pipeline_enforced_config_level
    get_pipeline_success_history_limit_count pr_list pr_is_completed pr_is_successful pr_delete
    pr_get
build_is_deleted = refl

-- Someone starts "build" again.
abbrev rebuilt : World TwoRuns
rebuilt = record after_build { cluster = record { build_there = true; deploy_there = true } }

unfinished_run_survives_example :
    (collect_namespace two_platform "12:00" "ns" rebuilt).cluster.deploy_there ≡ true
unfinished_run_survives_example =
    unfinished_run_survives deployment two_platform two_laws two_core two_core_laws
      (acts
        (outside rebuilt.cluster (acts begins (pipeline_event build))
          (record { stays = λ alive. refl }))
        (collection "12:00" "ns"))
      refl

all_collected : Reach (collect_namespace two_platform "12:00") ("ns" ∷ []) (pos 1) both (record {
  pending = [];
  idle = 1;
  busy = [];
  finished = "ns" ∷ [];
  world = collect_namespace two_platform "12:00" "ns" both;
})
all_collected = later (later start (receive refl refl)) (complete [] [] refl)

collection_keeps_unfinished_example :
    (collect_namespace two_platform "12:00" "ns" both).cluster.deploy_there ≡ true
collection_keeps_unfinished_example =
    collection_keeps_unfinished deployment two_platform two_laws "12:00" ("ns" ∷ []) (pos 1) both
      all_collected refl
