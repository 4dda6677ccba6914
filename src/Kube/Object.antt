-- ===== src/Kube/Object.antt =====
-- `metav1.Object` and the two kinds of run, with the fields that the source reads.
use tektoncd_pruner.Prelude.{String, Option, List}
use tektoncd_pruner.Go.Dict.{Dict}
use tektoncd_pruner.Go.Time.{Time}

pub record OwnerReference : Type 0 where
  pub kind : String
  pub name : String

pub record ObjectMeta : Type 0 where
  pub namespace : String
  pub name : String
  pub uid : String
  pub labels : Dict String
  pub annotations : Dict String
  pub creation_timestamp : Time
  pub deletion_timestamp : Option Time
  pub owner_references : List OwnerReference

-- `apis.Condition`; the status is "True", "False" or "Unknown".
pub record Condition : Type 0 where
  pub type : String
  pub status : String
  pub reason : String
  pub last_transition_time : Time

pub record RunStatus : Type 0 where
  pub start_time : Option Time
  pub completion_time : Option Time
  pub conditions : List Condition

pub record PipelineRun : Type 0 where
  pub metadata : ObjectMeta
  pub spec_status : String
  pub status : RunStatus

pub record TaskRun : Type 0 where
  pub metadata : ObjectMeta
  pub status : RunStatus

-- The dynamic types behind `metav1.Object` that a type assertion of the source tells apart.
pub data Object : Type 0 where
  pipeline_run : PipelineRun → Object
  task_run : TaskRun → Object
  other_object : ObjectMeta → Object

abbrev pub meta : Object → ObjectMeta
meta (pipeline_run pr) = pr.metadata
meta (task_run tr) = tr.metadata
meta (other_object m) = m

abbrev pub condition_succeeded : String
condition_succeeded = "Succeeded"

abbrev pub condition_unknown : String
condition_unknown = "Unknown"

abbrev pub reason_succeeded : String
reason_succeeded = "Succeeded"

abbrev pub reason_completed : String
reason_completed = "Completed"
