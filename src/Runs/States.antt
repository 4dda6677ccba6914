-- ===== src/Runs/States.antt =====
-- The predicates on the state of a run in the two reconcilers.
use tektoncd_pruner.Prelude.{
  String, true, false, Bool-cases, Option, Option-cases, none, some, List, [], ◌∷◌, ◌≡◌, refl, ap,
  sym, subst, ◌∙◌, arith, inl, inr, ◌==◌, if◌then◌else◌, ◌&&◌, ◌||◌, All,
}
use tektoncd_pruner.Go.Exec.{Result, ok}
use tektoncd_pruner.Go.Time.{Time, is_zero}
use tektoncd_pruner.Kube.Object.{
  pipeline_run, task_run, PipelineRun, TaskRun, Condition, condition_succeeded,
}
use tektoncd_pruner.Kube.Api.{Platform}
use tektoncd_pruner.World.{World, read_clock}
use tektoncd_pruner.History.Limit.{HistoryLimiter}
use tektoncd_pruner.History.Cleanup.{is_successful_resource, is_failed_resource}
use tektoncd_pruner.Ttl.Annotation.{TtlHandler}
use tektoncd_pruner.Runs.PipelineRuns.{
  is_decided, finish_condition, pr_completion_time, pr_is_completed, pr_history_funcs, pr_ttl_funcs,
}
use tektoncd_pruner.Runs.TaskRuns.{
  condition_time, tr_completion_time, tr_is_completed, tr_is_failed, tr_history_funcs, tr_ttl_funcs,
}

-- What the vendored `GetCondition` documents: the first condition of the type.
abbrev pub first_of_type : String → List Condition → Option Condition
first_of_type t [] = none
first_of_type t (c ∷ cs) = let rest = first_of_type t cs in if c.type == t then some c else rest

-- The API server dates every condition.
abbrev pub AllDated : List Condition → Type 0
AllDated = All (λ c. is_zero c.last_transition_time ≡ false)

HasTime : Result Time → Type 0
HasTime r = (t : Time) × (r ≡ ok t)

finish_condition-HasTime :
    (name : String) (cs : List Condition)
    → AllDated cs
    → is_decided (first_of_type condition_succeeded cs) ≡ true
    → HasTime (finish_condition name cs)
unfolding finish_condition HasTime
finish_condition-HasTime name [] dated h = absurd (ground (arith, h))
finish_condition-HasTime name (c ∷ cs) dated h = elim (Bool-cases (c.type == condition_succeeded)) [
  | inl here ↦ (c.last_transition_time, ground (arith, here, h, dated.0))
  | inr other ↦ rw other (
      finish_condition-HasTime name cs dated.1 (
        subst (λ b. is_decided (if b then some c else first_of_type condition_succeeded cs) ≡ true)
          other h))
]

module _ {S : Type 0} (p : Platform S) where
  -- A completed PipelineRun whose conditions are dated, and of which `GetCondition` finds the first
  -- one of its type, has a time of completion: `GetCompletionTime` returns no error.
  completed_pipeline_run_has_time :
      (pr : PipelineRun)
      → p.get_condition pr.status condition_succeeded
        ≡ first_of_type condition_succeeded pr.status.conditions
      → AllDated pr.status.conditions
      → pr_is_completed p (pipeline_run pr) ≡ true
      → (t : Time) × (pr_completion_time (pipeline_run pr) ≡ ok t)
  unfolding pr_is_completed pr_completion_time HasTime
  completed_pipeline_run_has_time pr law dated completed =
      elim (Option-cases pr.status.completion_time) [
        | inl missing ↦ rw missing (
            finish_condition-HasTime _ pr.status.conditions dated
              (ap is_decided (sym law) ∙ ground arith))
        | inr (t, known) ↦ (t, rw known refl)
      ]

  -- A completed TaskRun whose condition, if it has one, is dated has a time of completion:
  -- `GetCompletionTime` returns no error.
  pub completed_task_run_has_time :
      (tr : TaskRun)
      → ((c : Condition)
          → p.get_condition tr.status condition_succeeded ≡ some c
          → is_zero c.last_transition_time ≡ false)
      → tr_is_completed p (task_run tr) ≡ true
      → (t : Time) × (tr_completion_time p (task_run tr) ≡ ok t)
  unfolding tr_is_completed tr_completion_time condition_time
  completed_task_run_has_time tr dated completed = elim (Option-cases tr.status.completion_time) [
    | inr (t, known) ↦ (t, rw known refl)
    | inl missing ↦ elim (Option-cases (p.get_condition tr.status condition_succeeded)) [
      | inl absent ↦ absurd (ground (arith, absent))
      | inr (c, here) ↦ (
        c.last_transition_time,
        rw missing (rw here (ground (arith, dated c here, here, missing, completed))),
      )
    ]
  ]

  -- The history limiters that the two reconcilers are made with.
  abbrev pub pr_limiter : HistoryLimiter (World S)
  pr_limiter = record { resource_fn = pr_history_funcs p }

  abbrev pub tr_limiter : HistoryLimiter (World S)
  tr_limiter = record { resource_fn = tr_history_funcs p }

  -- The TTL handlers, over the real clock.
  abbrev pub pr_handler : TtlHandler (World S)
  pr_handler = record { clock = read_clock p; resource_fn = pr_ttl_funcs p }

  abbrev pub tr_handler : TtlHandler (World S)
  tr_handler = record { clock = read_clock p; resource_fn = tr_ttl_funcs p }

  -- A TaskRun is counted by exactly one of the two history limits once it is completed, and by
  -- neither before.
  pub task_run_has_one_limit :
      (tr : TaskRun)
      → (is_successful_resource p tr_limiter (task_run tr)
            && is_failed_resource p tr_limiter (task_run tr)
          ≡ false)
        × (is_successful_resource p tr_limiter (task_run tr)
              || is_failed_resource p tr_limiter (task_run tr)
            ≡ tr_is_completed p (task_run tr))
  unfolding is_successful_resource is_failed_resource tr_is_failed
  task_run_has_one_limit tr = (ground arith, ground arith)
