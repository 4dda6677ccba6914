-- ===== src/Tests/Fixture.antt =====
-- A cluster in memory: the clock stands still, and the API client works on a list of runs.
use tektoncd_pruner.Prelude.{
  String, ℕ, ℤ, pos, Bool, true, false, not, Option, none, some, List, [], ◌∷◌, refl, ◌==◌,
  if◌then◌else◌, keep,
}
use tektoncd_pruner.Go.Exec.{ok, err, Error, api, other_reason}
use tektoncd_pruner.Go.Time.{Time}
use tektoncd_pruner.Kube.Object.{Object, ObjectMeta, other_object, meta}
use tektoncd_pruner.Kube.Api.{Platform, RunClient, ErrorKinds}
use tektoncd_pruner.Config.Spec.{SelectorSpec, empty_config, level_global}
use tektoncd_pruner.Config.Store.{PrunerConfigStore}
use tektoncd_pruner.Metrics.{new_recorder}
use tektoncd_pruner.World.{World}
use tektoncd_pruner.Go.Dict.{entries}
use tektoncd_pruner.History.Limit.{HistoryLimiterResourceFuncs, HistoryLimiter, join_entries}
use tektoncd_pruner.History.Enforcement.{IsRunServer, has_key}
use tektoncd_pruner.Runs.States.{first_of_type}

abbrev pub unavailable : Error
unavailable = api (other_reason "unavailable")

abbrev pub no_client : {S Run : Type 0} → RunClient S Run
no_client = record {
  get = λ namespace name s. (err unavailable, s);
  list = λ namespace selector s. (ok [], s);
  delete = λ namespace name s. (err unavailable, s);
  update = λ namespace run s. (err unavailable, s);
  patch = λ namespace name patch s. (err unavailable, s);
}

abbrev pub error_kinds : ErrorKinds
error_kinds = record {
  is_not_found = λ e. false;
  is_internal_error = λ e. false;
  is_server_timeout = λ e. false;
  is_service_unavailable = λ e. false;
  is_timeout = λ e. false;
  is_invalid = λ e. false;
  is_bad_request = λ e. false;
  is_forbidden = λ e. false;
  is_unauthorized = λ e. false;
  is_requeue_key = λ e. false;
}

abbrev pub noon : Time
noon = pos 43200000000000

abbrev pub platform : {S : Type 0} → Platform S
platform = record {
  pipeline_runs = no_client;
  task_runs = no_client;
  now = λ s. (noon, s);
  format_rfc3339 = λ t. "12:00";
  parse_rfc3339 = λ text. if text == "12:00" then ok noon else ok (pos 1);
  errors = error_kinds;
  is_pending = λ pr. false;
  get_condition = λ status t. first_of_type t status.conditions;
  has_pipeline_run_owner_reference = λ tr. false;
  format_label_selector = λ labels. join_entries (entries labels) "";
}

abbrev pub store : PrunerConfigStore
store = record { global_config = record { config = empty_config; namespaces = none } }

abbrev pub world_of : {S : Type 0} → S → World S
world_of s = record { cluster = s; store = store; recorder = new_recorder }

abbrev pub meta_of : String → ℕ → ObjectMeta
meta_of name created = record {
  namespace = "ns";
  name = name;
  uid = name;
  labels = none;
  annotations = none;
  creation_timestamp = pos created;
  deletion_timestamp = none;
  owner_references = [];
}

abbrev pub run_of : String → ℕ → Object
run_of name created = other_object (meta_of name created)

abbrev pub in_namespace : String → String → Object → Bool
in_namespace namespace selector o = (meta o).namespace == namespace

abbrev pub limit_one : String → String → SelectorSpec → World (List Object) → Option ℤ × String
limit_one namespace name selector w = (some (pos 1), "identified_by_global")

-- Every run is successful, and the limit is one.
abbrev pub memory_funcs : HistoryLimiterResourceFuncs (World (List Object))
memory_funcs = record {
  type = "PipelineRun";
  get = λ namespace name w. (err unavailable, w);
  update = λ o w. (err unavailable, w);
  patch = λ namespace name patch w. (err unavailable, w);
  delete = λ namespace name w.
      (ok tt, record w { cluster = keep (λ o. not (has_key namespace name o)) w.cluster });
  list = λ namespace selector w. (ok (keep (in_namespace namespace selector) w.cluster), w);
  get_failed_history_limit_count = limit_one;
  get_success_history_limit_count = limit_one;
  is_successful = λ o. true;
  is_failed = λ o. false;
  is_completed = λ o. true;
  get_default_label_key = "tekton.dev/pipeline";
  get_enforced_config_level = λ namespace name selector w. level_global;
}

abbrev pub memory_limiter : HistoryLimiter (World (List Object))
memory_limiter = record { resource_fn = memory_funcs }

abbrev pub runs : List Object → List Object
runs l = l

pub memory_laws : IsRunServer platform memory_limiter runs in_namespace
memory_laws = record {
  clock = λ s. refl;
  list = λ namespace selector w. refl;
  delete = λ namespace name w gone. refl;
}

-- Three runs, the second of which is the newest.
abbrev pub three_runs : List Object
three_runs = run_of "a" 1 ∷ run_of "b" 3 ∷ run_of "c" 2 ∷ []
