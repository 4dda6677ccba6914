-- ===== src/Config/Workers.antt =====
-- `GetEnvValueAsInt` of constants.go and `WorkerCount` of config.go. The environment is a parameter.
use tektoncd_pruner.Prelude.{String, ◌<>◌, ℤ, pos, ◌==◌, if◌then◌else◌}
use tektoncd_pruner.Go.Dict.{Dict, at, find}
use tektoncd_pruner.Go.Decimal.{atoi}
use tektoncd_pruner.Go.Exec.{Result, ok, wrap, map_error}

abbrev pub default_worker_count : ℤ
default_worker_count = pos 5

abbrev pub env_ttl_concurrent_workers_pipeline_run : String
env_ttl_concurrent_workers_pipeline_run = "TTL_CONCURRENT_WORKERS_PIPELINE_RUN"

abbrev pub env_ttl_concurrent_workers_task_run : String
env_ttl_concurrent_workers_task_run = "TTL_CONCURRENT_WORKERS_TASK_RUN"

abbrev pub default_ttl_concurrent_workers_pipeline_run : ℤ
default_ttl_concurrent_workers_pipeline_run = pos 5

abbrev pub default_ttl_concurrent_workers_task_run : ℤ
default_ttl_concurrent_workers_task_run = pos 5

-- `GetEnvValueAsInt`; `getenv` is `os.Getenv`, which gives the empty text for an unset variable
unfoldable pub get_env_value_as_int : (String → String) → String → ℤ → Result ℤ
unfolding atoi
get_env_value_as_int getenv key default_value =
    let text = getenv key in
    if text == ""
    then ok default_value
    else map_error (wrap ("failed to convert value of " <> (key <> " to int"))) (atoi text)

-- `WorkerCount`: the ConfigMap says whether the environment is asked
unfoldable pub worker_count : (String → String) → Dict String → Result ℤ
unfolding find get_env_value_as_int
worker_count getenv config_map =
    if at config_map "WorkerCountForNamespaceCleanup" == ""
    then ok default_worker_count
    else get_env_value_as_int getenv "WorkerCountForNamespaceCleanup" default_worker_count
