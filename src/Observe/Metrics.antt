-- ===== src/Observe/Metrics.antt =====
-- The metrics of pkg/metrics/metrics.go, and the calls by which they are updated. A metric is named
-- for the variable of the source that holds it.
pub mod Record
pub mod Labelled
use jit_bot.Base.{ℕ, Bool, true, false, List, [], ◌∷◌, ◌++◌, Bytes, codes, if◌then◌else◌}
use jit_bot.Base.Int.{ℤ, pos, ◌-ℤ◌}

pub data Metric : Type 0 where
  access_requests_total access_requests_approved access_requests_denied : Metric
  access_request_duration active_access_sessions access_session_duration : Metric
  webhook_requests_total webhook_request_duration webhook_validation_errors : Metric
  aws_api_calls aws_api_duration aws_api_errors : Metric
  slack_commands_total slack_command_duration slack_api_errors : Metric
  controller_reconcile_total controller_reconcile_duration controller_errors : Metric
  security_violations_total privilege_escalation_attempts : Metric
  system_health_status last_successful_backup : Metric

pub data Buckets : Type 0 where
  -- DefBuckets of the library
  default : Buckets
  -- ExponentialBuckets: the first bound in seconds, the factor and the count
  exponential : ℕ → ℕ → ℕ → Buckets

pub data Kind : Type 0 where
  counter gauge : Kind
  histogram : Buckets → Kind

-- A vector as it is declared: its name, its kind and the names of its labels.
pub record Vector : Type 0 where
  pub name : Bytes
  pub kind : Kind
  pub labels : List Bytes

abbrev pub counter_vec : Bytes → List Bytes → Vector
counter_vec name labels = record { name = name; kind = counter; labels = labels }

abbrev pub gauge_vec : Bytes → List Bytes → Vector
gauge_vec name labels = record { name = name; kind = gauge; labels = labels }

abbrev pub histogram_vec : Bytes → Buckets → List Bytes → Vector
histogram_vec name buckets labels = record {
  name = name;
  kind = histogram buckets;
  labels = labels;
}

unfoldable pub vector : Metric → Vector
vector access_requests_total =
    counter_vec (codes "jit_access_requests_total")
      (codes "cluster" ∷ codes "user" ∷ codes "environment" ∷ codes "permissions" ∷ [])
vector access_requests_approved =
    counter_vec (codes "jit_access_requests_approved_total")
      (codes "cluster" ∷ codes "user" ∷ codes "environment" ∷ codes "approver" ∷ [])
vector access_requests_denied =
    counter_vec (codes "jit_access_requests_denied_total")
      (codes "cluster" ∷ codes "user" ∷ codes "environment" ∷ codes "reason" ∷ [])
vector access_request_duration =
    histogram_vec (codes "jit_access_request_duration_seconds") (exponential 1 2 10)
      (codes "cluster" ∷ codes "environment" ∷ codes "status" ∷ [])
vector active_access_sessions =
    gauge_vec (codes "jit_active_access_sessions")
      (codes "cluster" ∷ codes "environment" ∷ codes "permission_level" ∷ [])
vector access_session_duration =
    histogram_vec (codes "jit_access_session_duration_seconds") (exponential 60 2 12)
      (codes "cluster" ∷ codes "environment" ∷ codes "permissions" ∷ [])
vector webhook_requests_total =
    counter_vec (codes "jit_webhook_requests_total")
      (codes "webhook_type" ∷ codes "operation" ∷ codes "status" ∷ [])
vector webhook_request_duration =
    histogram_vec (codes "jit_webhook_request_duration_seconds") default
      (codes "webhook_type" ∷ codes "operation" ∷ [])
vector webhook_validation_errors =
    counter_vec (codes "jit_webhook_validation_errors_total")
      (codes "webhook_type" ∷ codes "error_type" ∷ codes "field" ∷ [])
vector aws_api_calls =
    counter_vec (codes "jit_aws_api_calls_total")
      (codes "service" ∷ codes "operation" ∷ codes "status" ∷ codes "region" ∷ [])
vector aws_api_duration =
    histogram_vec (codes "jit_aws_api_duration_seconds") default
      (codes "service" ∷ codes "operation" ∷ codes "region" ∷ [])
vector aws_api_errors =
    counter_vec (codes "jit_aws_api_errors_total")
      (codes "service" ∷ codes "operation" ∷ codes "error_code" ∷ codes "region" ∷ [])
vector slack_commands_total =
    counter_vec (codes "jit_slack_commands_total")
      (codes "command" ∷ codes "user" ∷ codes "channel" ∷ codes "status" ∷ [])
vector slack_command_duration =
    histogram_vec (codes "jit_slack_command_duration_seconds") default (codes "command" ∷ [])
vector slack_api_errors =
    counter_vec (codes "jit_slack_api_errors_total") (codes "operation" ∷ codes "error_type" ∷ [])
vector controller_reconcile_total =
    counter_vec (codes "jit_controller_reconcile_total") (codes "controller" ∷ codes "result" ∷ [])
vector controller_reconcile_duration =
    histogram_vec (codes "jit_controller_reconcile_duration_seconds") default
      (codes "controller" ∷ [])
vector controller_errors =
    counter_vec (codes "jit_controller_errors_total") (codes "controller" ∷ codes "error_type" ∷ [])
vector security_violations_total =
    counter_vec (codes "jit_security_violations_total")
      (codes "violation_type" ∷ codes "user" ∷ codes "cluster" ∷ [])
vector privilege_escalation_attempts =
    counter_vec (codes "jit_privilege_escalation_attempts_total")
      (codes "user" ∷ codes "from_permission" ∷ codes "to_permission" ∷ codes "cluster" ∷ [])
vector system_health_status = gauge_vec (codes "jit_system_health_status") (codes "component" ∷ [])
vector last_successful_backup = gauge_vec (codes "jit_last_successful_backup_timestamp") []

-- What init registers with the registry of controller-runtime, in its order.
unfoldable pub registered : List Metric
registered =
    access_requests_total ∷ access_requests_approved ∷ access_requests_denied
    ∷ access_request_duration ∷ active_access_sessions ∷ access_session_duration
    ∷ webhook_requests_total ∷ webhook_request_duration ∷ webhook_validation_errors ∷ aws_api_calls
    ∷ aws_api_duration ∷ aws_api_errors ∷ slack_commands_total ∷ slack_command_duration
    ∷ slack_api_errors ∷ controller_reconcile_total ∷ controller_reconcile_duration
    ∷ controller_errors ∷ security_violations_total ∷ privilege_escalation_attempts
    ∷ system_health_status ∷ last_successful_backup ∷ []

-- One call of the library: the vector, the values of its labels, and what is recorded. A histogram
-- observes the seconds of a time in nanoseconds.
pub data Sample : Type 0 where
  inc : Metric → List Bytes → Sample
  observe : Metric → List Bytes → ℤ → Sample
  set : Metric → List Bytes → ℤ → Sample

-- The loop of joinPermissions behind its first element.
unfoldable pub joined : Bytes → List Bytes → Bytes
joined result [] = result
joined result (perm ∷ rest) = joined ((result ++ codes ",") ++ perm) rest

unfoldable pub join_permissions : List Bytes → Bytes
unfolding joined
join_permissions [] = codes "none"
join_permissions (perm ∷ rest) = joined perm rest
