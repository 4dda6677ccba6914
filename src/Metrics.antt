-- ===== src/Metrics.antt =====
-- pkg/metrics/metrics.go: the recorder, its attribute sets and the classes of errors. What the
-- instruments have been told is a list of measurements, the latest first.
pub mod Names
pub mod Laws
use tektoncd_pruner.Prelude.{
  String, Bool, true, false, Option, none, some, List, [], ◌∷◌, ℤ, pos, if◌then◌else◌, ◌||◌,
}
use tektoncd_pruner.Go.Dict.{Dict, find, replace, get, put}
use tektoncd_pruner.Go.Exec.{Error}
use tektoncd_pruner.Go.Time.{Time, Duration, sub}
use tektoncd_pruner.Kube.Api.{ErrorKinds}
use tektoncd_pruner.Metrics.Names.{
  metric_resources_processed, metric_reconciliation_events, metric_resources_deleted,
  metric_resources_errors, metric_reconciliation_duration, metric_ttl_processing_duration,
  metric_history_processing_duration, metric_active_resources_count, metric_pending_deletions_count,
  metric_resource_age_at_deletion, label_namespace, label_resource_type, label_status, label_reason,
  label_error_type, label_operation, error_type_api, error_type_timeout, error_type_validation,
  error_type_internal, error_type_not_found, error_type_permission,
}

abbrev pub Labels : Type 0
Labels = List (String × String)

-- `Add(ctx, n, …)` on a counter, and `Record(ctx, d.Seconds(), …)` on a histogram.
pub data Measurement : Type 0 where
  add : String → ℤ → Labels → Measurement
  record_seconds : String → Duration → Labels → Measurement

pub record Recorder : Type 0 where
  pub measurements : List Measurement
  pub seen_resources : Dict Bool

-- `newRecorder`
abbrev pub new_recorder : Recorder
new_recorder = record { measurements = []; seen_resources = some [] }

-- `GetRecorder`: the variable `recorder` is set by the first call, under `once`
abbrev pub get_recorder : Option Recorder → Recorder × Option Recorder
get_recorder none = (new_recorder, some new_recorder)
get_recorder (some r) = (r, some r)

-- `ResourceAttributes`
unfoldable pub resource_attributes : String → String → Labels
resource_attributes resource_type namespace =
    (label_resource_type, resource_type) ∷ (label_namespace, namespace) ∷ []

-- `ErrorAttributes`
unfoldable pub error_attributes : String → String → String → String → Labels
error_attributes resource_type namespace error_type reason =
    (label_resource_type, resource_type)
    ∷ (label_namespace, namespace)
    ∷ (label_error_type, error_type)
    ∷ (label_reason, reason)
    ∷ []

-- `OperationAttributes`
unfoldable pub operation_attributes : String → String → String → Labels
operation_attributes resource_type namespace operation =
    (label_resource_type, resource_type)
    ∷ (label_namespace, namespace)
    ∷ (label_operation, operation)
    ∷ []

abbrev observe : Measurement → Recorder → Recorder
observe m r = record r { measurements = m ∷ r.measurements }

pub record Timer : Type 0 where
  pub start : Time
  pub labels : Labels

-- `NewTimer`, at the time `now`
abbrev pub new_timer : Labels → Time → Timer
new_timer labels now = record { start = now; labels = labels }

-- `time.Since(t.start)` is taken at the time `now`.
unfoldable pub record_reconciliation_duration : Timer → Time → Recorder → Recorder
record_reconciliation_duration t now =
    observe (record_seconds metric_reconciliation_duration (sub now t.start) t.labels)

unfoldable pub record_ttl_processing_duration : Timer → Time → Recorder → Recorder
record_ttl_processing_duration t now =
    observe (record_seconds metric_ttl_processing_duration (sub now t.start) t.labels)

unfoldable pub record_history_processing_duration : Timer → Time → Recorder → Recorder
record_history_processing_duration t now =
    observe (record_seconds metric_history_processing_duration (sub now t.start) t.labels)

abbrev status_labels : String → String → String → Labels
status_labels resource_type namespace status =
    (label_resource_type, resource_type)
    ∷ (label_namespace, namespace)
    ∷ (label_status, status)
    ∷ []

unfoldable pub record_reconciliation_event : String → String → String → Recorder → Recorder
record_reconciliation_event resource_type namespace status =
    observe
      (add metric_reconciliation_events (pos 1) (status_labels resource_type namespace status))

-- `r.seenResources[uid]`: false where the key is missing
abbrev pub is_seen : Recorder → String → Bool
is_seen r uid = elim (get r.seen_resources uid) [ none ↦ false | some b ↦ b ]

unfoldable pub record_resource_processed : String → String → String → String → Recorder → Recorder
record_resource_processed uid resource_type namespace status r =
    if is_seen r uid then r else record r {
      measurements =
          add metric_resources_processed (pos 1) (status_labels resource_type namespace status)
          ∷ r.measurements;
      seen_resources = put r.seen_resources uid true;
    }

unfoldable pub record_resource_deleted : String → String → String → Duration → Recorder → Recorder
unfolding operation_attributes
record_resource_deleted resource_type namespace operation age r =
    let labels = operation_attributes resource_type namespace operation in
    observe (record_seconds metric_resource_age_at_deletion age labels)
      (observe (add metric_resources_deleted (pos 1) labels) r)

unfoldable pub record_resource_error : String → String → String → String → Recorder → Recorder
unfolding error_attributes
record_resource_error resource_type namespace error_type reason = observe (
    add metric_resources_errors (pos 1)
      (error_attributes resource_type namespace error_type reason))

unfoldable pub update_active_resources_count : String → String → ℤ → Recorder → Recorder
unfolding resource_attributes
update_active_resources_count resource_type namespace delta =
    observe (add metric_active_resources_count delta (resource_attributes resource_type namespace))

unfoldable pub update_pending_deletions_count : String → String → ℤ → Recorder → Recorder
unfolding resource_attributes
update_pending_deletions_count resource_type namespace delta =
    observe (add metric_pending_deletions_count delta (resource_attributes resource_type namespace))

module _ (k : ErrorKinds) where
  open k use {
    is_not_found, is_internal_error, is_server_timeout, is_service_unavailable, is_timeout,
    is_invalid, is_bad_request, is_forbidden, is_unauthorized,
  }

  unfoldable pub is_api_error : Error → Bool
  is_api_error e = is_internal_error e || is_server_timeout e || is_service_unavailable e

  unfoldable pub is_timeout_error : Error → Bool
  is_timeout_error e = is_timeout e || is_server_timeout e

  unfoldable pub is_validation_error : Error → Bool
  is_validation_error e = is_invalid e || is_bad_request e

  unfoldable pub is_not_found_error : Error → Bool
  is_not_found_error e = is_not_found e

  unfoldable pub is_permission_error : Error → Bool
  is_permission_error e = is_forbidden e || is_unauthorized e

  unfoldable pub classify_error : Option Error → String
  unfolding is_api_error is_timeout_error is_validation_error is_not_found_error is_permission_error
  classify_error none = ""
  classify_error (some e) =
      if is_api_error e
      then error_type_api
      else if is_timeout_error e
      then error_type_timeout
      else if is_validation_error e
      then error_type_validation
      else if is_not_found_error e
      then error_type_not_found
      else if is_permission_error e
      then error_type_permission
      else error_type_internal
