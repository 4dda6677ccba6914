-- ===== src/Safety.antt =====
-- Invariants of the cluster that the reconcilers and the garbage collection keep.
pub mod View
pub mod Deletions
pub mod Limiter
pub mod Expired
pub mod Clients
pub mod Reconcilers
pub mod Collections
pub mod Prepared
pub mod OnCluster
pub mod Workers
pub mod OfProcess
pub mod System
pub mod Settings
pub mod Events
pub mod Processed
pub mod Enforced
pub mod Isolation
pub mod Configured
pub mod Cleaned
pub mod Collected
pub mod Pruned
