-- ===== src/Pruner.antt =====
-- pkg/reconciler/tektonpruner/controller.go.
pub mod Collect
pub mod Namespaces
pub mod Pool
pub mod Rechecked
pub mod Trigger
