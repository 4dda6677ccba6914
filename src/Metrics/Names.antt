-- ===== src/Metrics/Names.antt =====
-- The constants of pkg/metrics/metrics.go that the program uses.
use tektoncd_pruner.Prelude.{String}

abbrev pub metric_resources_processed : String
metric_resources_processed = "tekton_pruner_controller_resources_processed"

abbrev pub metric_reconciliation_events : String
metric_reconciliation_events = "tekton_pruner_controller_reconciliation_events"

abbrev pub metric_resources_deleted : String
metric_resources_deleted = "tekton_pruner_controller_resources_deleted"

abbrev pub metric_resources_errors : String
metric_resources_errors = "tekton_pruner_controller_resources_errors"

abbrev pub metric_reconciliation_duration : String
metric_reconciliation_duration = "tekton_pruner_controller_reconciliation_duration"

abbrev pub metric_ttl_processing_duration : String
metric_ttl_processing_duration = "tekton_pruner_controller_ttl_processing_duration"

abbrev pub metric_history_processing_duration : String
metric_history_processing_duration = "tekton_pruner_controller_history_processing_duration"

abbrev pub metric_active_resources_count : String
metric_active_resources_count = "tekton_pruner_controller_active_resources"

abbrev pub metric_pending_deletions_count : String
metric_pending_deletions_count = "tekton_pruner_controller_pending_deletions"

abbrev pub metric_resource_age_at_deletion : String
metric_resource_age_at_deletion = "tekton_pruner_controller_resource_age_at_deletion"

abbrev pub label_namespace : String
label_namespace = "namespace"

abbrev pub label_resource_type : String
label_resource_type = "resource_type"

abbrev pub label_status : String
label_status = "status"

abbrev pub label_reason : String
label_reason = "reason"

abbrev pub label_error_type : String
label_error_type = "error_type"

abbrev pub label_operation : String
label_operation = "operation"

abbrev pub error_type_api : String
error_type_api = "api_error"

abbrev pub error_type_timeout : String
error_type_timeout = "timeout"

abbrev pub error_type_validation : String
error_type_validation = "validation"

abbrev pub error_type_internal : String
error_type_internal = "internal"

abbrev pub error_type_not_found : String
error_type_not_found = "not_found"

abbrev pub error_type_permission : String
error_type_permission = "permission"

abbrev pub resource_type_pipeline_run : String
resource_type_pipeline_run = "pipelinerun"

abbrev pub resource_type_task_run : String
resource_type_task_run = "taskrun"

abbrev pub operation_ttl : String
operation_ttl = "ttl"

abbrev pub operation_history : String
operation_history = "history"

abbrev pub status_success : String
status_success = "success"

abbrev pub status_error : String
status_error = "error"
