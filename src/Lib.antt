-- ===== src/Lib.antt =====
-- The Tekton pruner: it deletes PipelineRuns and TaskRuns of a cluster once they are older than their
-- time to live (TTL), or once there are more of them than a history limit allows.
--
-- How the program works. The reconcilers of pkg/reconciler/pipelinerun and pkg/reconciler/taskrun get
-- an event for each change of a run. `ReconcileKind` hands the run to the history limiter
-- (pkg/config/history_limiter.go) and, if that returns no error, to the TTL handler
-- (pkg/config/ttl_handler.go). Both work through an interface that the reconciler implements over the
-- API client, and both look their settings up in the configuration store (pkg/config/config.go) by the
-- run's namespace, name, labels and annotations. The controller of pkg/reconciler/tektonpruner loads
-- the store when the ConfigMap changes and then runs both handlers over all namespaces, with a pool of
-- workers. Each part reports to the recorder of pkg/metrics.
--
-- The files, and the code that they model:
--   Go: what the code uses of Go: maps, errors, times and durations, texts, decimal numbers, sorting.
--   Kube: the objects of the API (Kube/Object) and the API client, clock and vendored helpers as a
--     record of functions over the state of the cluster (Kube/Api).
--   Metrics: pkg/metrics/metrics.go.
--   Config: pkg/config/config.go (Spec, Select, Level, Field, Store, Workers), config_defaults.go
--     (Spec), constants.go (Workers) and helper.go (Helper); Resolved compares the lookup of a setting
--     with a reference of it (Reference), and Levels the enforced level; Meets, Precedence, EntryOrder,
--     Groups and Named hold the other theorems on the lookup.
--   World: the state of a handler: the cluster, the configuration store and the metrics recorder.
--   History: pkg/config/history_limiter.go: the choice of the limit and of the runs (Limit), the
--     deletions (Cleanup) and `ProcessEvent` (Event); Selection, Selectors, Enforcement, Retained,
--     Bounds, Again and Processed hold the theorems.
--   Ttl: pkg/config/ttl_handler.go: the annotation (Annotation), the time of expiry (Expiry) and
--     `ProcessEvent` (Event); Value, Written, Removal, Requeued and Limits hold the
--     theorems.
--   Runs: pkg/reconciler/pipelinerun (PipelineRuns), pkg/reconciler/taskrun (TaskRuns), the two
--     `ReconcileKind` (Reconcile) and the two `NewController` (Controllers); States, Order, Unfinished,
--     Enforced, Counted, Expired, Removed and Started hold the theorems.
--   Pruner: pkg/reconciler/tektonpruner/controller.go: the collection of a namespace (Collect), the
--     start of a collection (Namespaces), the workers (Pool) and the calls that changes of the ConfigMap
--     start (Trigger); Rechecked, Trigger and Pool/Laws hold the theorems.
--   Start: cmd/controller/main.go up to the call of `MainWithConfig`, and pkg/version.
--   Safety: invariants of the cluster, which others change too, and of the process (View), with what
--     each part does to them: the history limiter (Deletions, Limiter), the TTL handler (Expired), the
--     resource functions (Clients), the reconcilers (Reconcilers), the garbage collection (Prepared,
--     Collections) and its workers (Workers). OnCluster and OfProcess make invariants of the cluster
--     alone and of the configuration and the recorder alone. System has the whole program as a step relation, and
--     the invariant that a run which is not completed is there; Settings has the one on which
--     configuration is in force, Events the one on the reconciliation events and Processed the one on
--     the counter of processed resources. Enforced has the
--     invariant that a limit is kept through a reconciliation, Collected (with Cleaned) through the
--     garbage collection of a namespace. Isolation has the invariant that the runs of a namespace are
--     kept while others are collected. Configured and Pruned go from the ConfigMap to the limit, through
--     a reconciliation and through a whole garbage collection.
--   Tests: concrete inputs at which the theorems apply.
--
-- How it is modelled. A function that returns an error is a function from the state to a result and a
-- state, with the errors as values; a function keeps the name of the source in lower case with
-- underscores (`doResourceCleanup` is `do_resource_cleanup`). A pointer is an option, a map is an
-- association list or nil, and the order of the list stands for the order in which Go visits the
-- entries. A time is a number of nanoseconds; a duration is one that wraps around or saturates as an
-- `int64` does. The loops are structural recursions; `itoa` alone runs on fuel, one more than the
-- number, which is enough since each round divides it by ten. The workers of the garbage collection
-- are a step relation, in which the collection of one namespace is one step; in Safety/System the
-- handling of one event is one step; others may change the cluster between these steps, and also during
-- a call of the client, since all that is asked of such a call is that it keeps the invariant.
--
-- The API server is a parameter: a theorem that depends on it names what it relies on
-- (`IsRunServer` of History/Enforcement, `MayFail` of History/Again, `IsPipelineServer` of
-- Runs/Enforced, `IsRunStore` of History/Processed, `IsMergePatch` of Ttl/Written, `IsCluster` of
-- Safety/Reconcilers, `IsCoreClient` of Safety/Collections, `IsExpired` of Runs/Expired, `IsRemover`
-- of Ttl/Requeued), and Tests has concrete ones. The vendored `NewImpl` of the two controllers is a
-- parameter too.
--
-- Not modelled: logging; the registration of metrics; the injection of informers and clients; the
-- mutexes but that of the garbage collection (each getter of the store is one step); the texts of
-- errors of vendored code; what the vendored `sharedmain.MainWithConfig` does; and the older versions
-- of functions that stand in comments of helper.go and of both reconciler.go.
pub mod Prelude
pub mod Go
pub mod Kube
pub mod Metrics
pub mod Config
pub mod World
pub mod History
pub mod Ttl
pub mod Runs
pub mod Pruner
pub mod Start
pub mod Safety
pub mod Tests
