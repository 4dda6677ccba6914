-- ===== src/Tests.antt =====
-- Tests of the development, and concrete inputs at which its theorems apply.
pub mod Fixture
pub mod Config
pub mod History
pub mod Cluster
pub mod Merge
pub mod Store
pub mod Ttl
pub mod Runs
pub mod Pruner
pub mod Safety
pub mod Again
pub mod Reconciled
pub mod Collected
pub mod Expired
pub mod Pruned
pub mod Selectors
pub mod Isolation
pub mod Requeued
pub mod Process
pub mod Start
