-- ===== src/Observe/Metrics/Record.antt =====
-- The functions of pkg/metrics/metrics.go that update a metric, as the calls that they make.
use jit_bot.Base.{Bool, List, [], ◌∷◌, Bytes, codes, if◌then◌else◌}
use jit_bot.Base.Int.{ℤ, pos, ◌-ℤ◌}
use jit_bot.Observe.Metrics.{Metric, Sample, inc, observe, set, join_permissions}

unfoldable pub record_access_request : Bytes → Bytes → Bytes → List Bytes → List Sample
unfolding join_permissions
record_access_request cluster user environment permissions =
    inc Metric.access_requests_total
      (cluster ∷ user ∷ environment ∷ join_permissions permissions ∷ [])
    ∷ []

unfoldable pub record_access_request_approval : Bytes → Bytes → Bytes → Bytes → ℤ → ℤ → List Sample
record_access_request_approval cluster user environment approver request_time now =
    inc Metric.access_requests_approved (cluster ∷ user ∷ environment ∷ approver ∷ [])
    ∷ observe Metric.access_request_duration (cluster ∷ environment ∷ codes "approved" ∷ [])
        (now -ℤ request_time)
    ∷ []

unfoldable pub record_access_request_denial : Bytes → Bytes → Bytes → Bytes → ℤ → ℤ → List Sample
record_access_request_denial cluster user environment reason request_time now =
    inc Metric.access_requests_denied (cluster ∷ user ∷ environment ∷ reason ∷ [])
    ∷ observe Metric.access_request_duration (cluster ∷ environment ∷ codes "denied" ∷ [])
        (now -ℤ request_time)
    ∷ []

unfoldable pub set_active_access_sessions : Bytes → Bytes → Bytes → ℤ → List Sample
set_active_access_sessions cluster environment permission_level count =
    set Metric.active_access_sessions (cluster ∷ environment ∷ permission_level ∷ []) count ∷ []

unfoldable pub record_access_session_completion : Bytes → Bytes → List Bytes → ℤ → List Sample
unfolding join_permissions
record_access_session_completion cluster environment permissions duration =
    observe Metric.access_session_duration
      (cluster ∷ environment ∷ join_permissions permissions ∷ []) duration
    ∷ []

unfoldable pub record_webhook_request : Bytes → Bytes → Bytes → ℤ → List Sample
record_webhook_request webhook_type operation status duration =
    inc Metric.webhook_requests_total (webhook_type ∷ operation ∷ status ∷ [])
    ∷ observe Metric.webhook_request_duration (webhook_type ∷ operation ∷ []) duration
    ∷ []

unfoldable pub record_webhook_validation_error : Bytes → Bytes → Bytes → List Sample
record_webhook_validation_error webhook_type error_type field_name =
    inc Metric.webhook_validation_errors (webhook_type ∷ error_type ∷ field_name ∷ []) ∷ []

unfoldable pub record_aws_api_call : Bytes → Bytes → Bytes → Bytes → ℤ → List Sample
record_aws_api_call service operation status region duration =
    inc Metric.aws_api_calls (service ∷ operation ∷ status ∷ region ∷ [])
    ∷ observe Metric.aws_api_duration (service ∷ operation ∷ region ∷ []) duration
    ∷ []

unfoldable pub record_aws_api_error : Bytes → Bytes → Bytes → Bytes → List Sample
record_aws_api_error service operation error_code region =
    inc Metric.aws_api_errors (service ∷ operation ∷ error_code ∷ region ∷ []) ∷ []

unfoldable pub record_slack_command : Bytes → Bytes → Bytes → Bytes → ℤ → List Sample
record_slack_command command user channel status duration =
    inc Metric.slack_commands_total (command ∷ user ∷ channel ∷ status ∷ [])
    ∷ observe Metric.slack_command_duration (command ∷ []) duration
    ∷ []

unfoldable pub record_slack_api_error : Bytes → Bytes → List Sample
record_slack_api_error operation error_type =
    inc Metric.slack_api_errors (operation ∷ error_type ∷ []) ∷ []

unfoldable pub record_controller_reconcile : Bytes → Bytes → ℤ → List Sample
record_controller_reconcile controller result duration =
    inc Metric.controller_reconcile_total (controller ∷ result ∷ [])
    ∷ observe Metric.controller_reconcile_duration (controller ∷ []) duration
    ∷ []

unfoldable pub record_controller_error : Bytes → Bytes → List Sample
record_controller_error controller error_type =
    inc Metric.controller_errors (controller ∷ error_type ∷ []) ∷ []

unfoldable pub record_security_violation : Bytes → Bytes → Bytes → List Sample
record_security_violation violation_type user cluster =
    inc Metric.security_violations_total (violation_type ∷ user ∷ cluster ∷ []) ∷ []

unfoldable pub record_privilege_escalation_attempt : Bytes → Bytes → Bytes → Bytes → List Sample
record_privilege_escalation_attempt user from_perm to_perm cluster =
    inc Metric.privilege_escalation_attempts (user ∷ from_perm ∷ to_perm ∷ cluster ∷ []) ∷ []

unfoldable pub set_system_health_status : Bytes → Bool → List Sample
set_system_health_status component healthy =
    let status = if healthy then pos 1 else pos 0 in
    set Metric.system_health_status (component ∷ []) status ∷ []

-- The time in seconds since 1970.
unfoldable pub set_last_successful_backup : ℤ → List Sample
set_last_successful_backup timestamp = set Metric.last_successful_backup [] timestamp ∷ []
