-- ===== src/Runs.antt =====
-- pkg/reconciler/pipelinerun and pkg/reconciler/taskrun: the two kinds of run behind the interfaces
-- of the handlers, and their reconcilers.
pub mod PipelineRuns
pub mod TaskRuns
pub mod Reconcile
pub mod States
pub mod Order
pub mod Unfinished
pub mod Enforced
pub mod Counted
pub mod Expired
pub mod Removed
pub mod Controllers
pub mod Started
