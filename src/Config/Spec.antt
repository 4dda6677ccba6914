-- ===== src/Config/Spec.antt =====
-- The types of pkg/config/config.go, `SetDefaults` of config_defaults.go and names of constants.go.
use tektoncd_pruner.Prelude.{String, Option, none, some, List, ℤ, pos}
use tektoncd_pruner.Go.Dict.{Dict}

-- `PrunerResourceType`, by its constants
pub data PrunerResourceType : Type 0 where
  resource_pipeline_run resource_task_run : PrunerResourceType

-- `PrunerFieldType`, by its constants
pub data PrunerFieldType : Type 0 where
  ttl_seconds successful_limit failed_limit : PrunerFieldType

-- A text that comes from the ConfigMap, so it need not be one of the three constants.
abbrev pub EnforcedConfigLevel : Type 0
EnforcedConfigLevel = String

abbrev pub level_global : EnforcedConfigLevel
level_global = "global"

abbrev pub level_namespace : EnforcedConfigLevel
level_namespace = "namespace"

abbrev pub level_resource : EnforcedConfigLevel
level_resource = "resource"

-- A pointer is an `Option`; `*int32` points to an integer of that range.
pub record PrunerConfig : Type 0 where
  pub enforced_config_level : Option EnforcedConfigLevel
  pub ttl_seconds_after_finished : Option ℤ
  pub successful_history_limit : Option ℤ
  pub failed_history_limit : Option ℤ
  pub history_limit : Option ℤ

pub record SelectorSpec : Type 0 where
  pub match_labels : Dict String
  pub match_annotations : Dict String

pub record ResourceSpec : Type 0 where
  pub name : String
  pub selector : List SelectorSpec
  pub config : PrunerConfig

pub record NamespaceSpec : Type 0 where
  pub config : PrunerConfig
  pub pipeline_runs : List ResourceSpec
  pub task_runs : List ResourceSpec

pub record GlobalConfig : Type 0 where
  pub config : PrunerConfig
  pub namespaces : Dict NamespaceSpec

abbrev pub empty_config : PrunerConfig
empty_config = record {
  enforced_config_level = none;
  ttl_seconds_after_finished = none;
  successful_history_limit = none;
  failed_history_limit = none;
  history_limit = none;
}

abbrev pub default_history_limit : ℤ
default_history_limit = pos 100

abbrev or_default : {A : Type 0} → Option A → A → Option A
or_default none d = some d
or_default (some a) d = some a

-- `SetDefaults`
unfoldable pub set_defaults : PrunerConfig → PrunerConfig
set_defaults pc = record pc {
  history_limit = or_default pc.history_limit default_history_limit;
  enforced_config_level = or_default pc.enforced_config_level level_global;
}

abbrev pub identified_by_name : String
identified_by_name = "identifiedBy_resource_name"

abbrev pub identified_by_annotation : String
identified_by_annotation = "identifiedBy_resource_ann"

abbrev pub identified_by_label : String
identified_by_label = "identifiedBy_resource_label"

abbrev pub annotation_ttl : String
annotation_ttl = "pruner.tekton.dev/ttlSecondsAfterFinished"

abbrev pub annotation_name_label_key : String
annotation_name_label_key = "pruner.tekton.dev/resourceNameLabelKey"

abbrev pub annotation_successful_limit : String
annotation_successful_limit = "pruner.tekton.dev/successfulHistoryLimit"

abbrev pub annotation_failed_limit : String
annotation_failed_limit = "pruner.tekton.dev/failedHistoryLimit"

abbrev pub annotation_processed : String
annotation_processed = "pruner.tekton.dev/historyLimitCheckProcessed"

abbrev pub kind_pipeline_run : String
kind_pipeline_run = "PipelineRun"

abbrev pub kind_task_run : String
kind_task_run = "TaskRun"

abbrev pub label_pipeline_name : String
label_pipeline_name = "tekton.dev/pipeline"

abbrev pub label_pipeline_run_name : String
label_pipeline_run_name = "tekton.dev/pipelineRun"

abbrev pub label_task_name : String
label_task_name = "tekton.dev/task"
