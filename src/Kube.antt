-- ===== src/Kube.antt =====
-- The Kubernetes and Tekton objects that the pruner reads, the API client that it calls, and the
-- vendored helpers that it relies on. The client and the helpers are parameters of the model.
pub mod Object
pub mod Api
