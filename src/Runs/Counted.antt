-- ===== src/Runs/Counted.antt =====
-- Which history limit counts a PipelineRun, by the state that its owner reports.
use tektoncd_pruner.Prelude.{
  Bool, true, false, not, ◌&&◌, ◌||◌, Option, none, some, ◌≡◌, refl, arith, ◌==◌, if◌then◌else◌,
  is_some,
}
use tektoncd_pruner.Kube.Object.{PipelineRun, RunStatus, Condition, pipeline_run}
use tektoncd_pruner.Kube.Api.{Platform}
use tektoncd_pruner.History.Cleanup.{is_successful_resource, is_failed_resource}
use tektoncd_pruner.Runs.PipelineRuns.{
  pr_is_completed, pr_is_successful, pr_is_failed, is_decided, has_success_reason,
}
use tektoncd_pruner.Runs.States.{pr_limiter}
use tektoncd_pruner.Runs.Enforced.{Outcome, success, failure}

-- The outcome of a run that is done, by the reason of its condition: any other reason is a failure.
unfoldable pub outcome_by_reason : Option Condition → Outcome
outcome_by_reason none = failure
outcome_by_reason (some c) =
    if c.reason == "Succeeded" || c.reason == "Completed" then success else failure

-- A run is done once it has a time of completion, or a condition that is not "Unknown".
unfoldable pub is_done : Option Condition → Bool → Bool
is_done none has_time = has_time
is_done (some c) has_time = has_time || not (c.status == "Unknown")

-- The limit that counts a run: none before its start, while it is pending, and before it is done.
unfoldable pub counted_as : Bool → RunStatus → Option Condition → Option Outcome
counted_as true status condition = none
counted_as false status condition =
    if is_some status.start_time && is_done condition (is_some status.completion_time)
    then some (outcome_by_reason condition)
    else none

unfoldable pub counts : Outcome → Option Outcome → Bool
counts success (some success) = true
counts failure (some failure) = true
counts _ _ = false

counts_if :
    (done won : Bool)
    → (counts success (if done then some (if won then success else failure) else none)
        ≡ done && won)
      × (counts failure (if done then some (if won then success else failure) else none)
          ≡ done && not won)
unfolding counts
counts_if true true = (refl, refl)
counts_if true false = (refl, refl)
counts_if false won = (refl, refl)

abbrev completed : PipelineRun → Bool → Option Condition → Bool
completed pr pending c =
    if not (is_some pr.status.start_time)
    then false
    else if is_some pr.status.completion_time
    then true
    else if pending
    then false
    else is_decided c

abbrev succeeded : Bool → Option Condition → Bool
succeeded pending c = if pending then false else has_success_reason c

module _ {S : Type 0} (p : Platform S) (pr : PipelineRun) where
  -- A PipelineRun is counted by the limit of successful runs where its condition has the reason
  -- "Succeeded" or "Completed", and by the limit of failed runs where it has another one or none, once
  -- it has started and has a time of completion or a condition that is not "Unknown"; before that, and
  -- while it is pending, it is counted by neither.
  pub pipeline_run_is_counted_once :
      (is_successful_resource p (pr_limiter p) (pipeline_run pr)
        ≡ counts success
            (counted_as (p.is_pending pr) pr.status (p.get_condition pr.status "Succeeded")))
      × (is_failed_resource p (pr_limiter p) (pipeline_run pr)
          ≡ counts failure
              (counted_as (p.is_pending pr) pr.status (p.get_condition pr.status "Succeeded")))
  unfolding is_successful_resource is_failed_resource pr_is_completed pr_is_successful pr_is_failed
      counted_as counts outcome_by_reason is_done
  pipeline_run_is_counted_once = by_state (p.is_pending pr) (p.get_condition pr.status "Succeeded")
    where
      by_state :
          (pending : Bool) (c : Option Condition)
          → (completed pr pending c && succeeded pending c
              ≡ counts success (counted_as pending pr.status c))
            × (completed pr pending c && (if pending then false else not (succeeded pending c))
                ≡ counts failure (counted_as pending pr.status c))
      by_state true c = (ground arith, ground arith)
      by_state false none =
          let done = is_some pr.status.start_time && is_some pr.status.completion_time in
          (ground (arith, (counts_if done false).0), ground (arith, (counts_if done false).1))
      by_state false (some c) =
          let done =
            is_some pr.status.start_time
            && (is_some pr.status.completion_time || not (c.status == "Unknown")) in
          let won = c.reason == "Succeeded" || c.reason == "Completed" in
          (ground (arith, (counts_if done won).0), ground (arith, (counts_if done won).1))
