-- ===== src/Observe/Metrics/Labelled.antt =====
-- The updates of pkg/metrics/metrics.go against the declarations of the vectors.
use jit_bot.Base.{◌≡◌, refl, Bool, List, some, Bytes, map, length, All, bytes_eq, str_eq}
use jit_bot.Base.Int.{ℤ}
use jit_bot.Base.Map.{lookup}
use jit_bot.Observe.Metrics.{
  Metric, Kind, Sample, vector, registered, inc, observe, set, counter, gauge, histogram,
}
use jit_bot.Observe.Metrics.Record.{
  record_access_request, record_access_request_approval, record_access_request_denial,
  set_active_access_sessions, record_access_session_completion, record_webhook_request,
  record_webhook_validation_error, record_aws_api_call, record_aws_api_error, record_slack_command,
  record_slack_api_error, record_controller_reconcile, record_controller_error,
  record_security_violation, record_privilege_escalation_attempt, set_system_health_status,
  set_last_successful_backup,
}

-- A call of one of the functions, with its arguments.
pub data Update : Type 0 where
  access_request : Bytes → Bytes → Bytes → List Bytes → Update
  approval : Bytes → Bytes → Bytes → Bytes → ℤ → ℤ → Update
  denial : Bytes → Bytes → Bytes → Bytes → ℤ → ℤ → Update
  active_sessions : Bytes → Bytes → Bytes → ℤ → Update
  session_completion : Bytes → Bytes → List Bytes → ℤ → Update
  webhook_request : Bytes → Bytes → Bytes → ℤ → Update
  webhook_validation_error : Bytes → Bytes → Bytes → Update
  aws_api_call : Bytes → Bytes → Bytes → Bytes → ℤ → Update
  aws_api_error : Bytes → Bytes → Bytes → Bytes → Update
  slack_command : Bytes → Bytes → Bytes → Bytes → ℤ → Update
  slack_api_error : Bytes → Bytes → Update
  controller_reconcile : Bytes → Bytes → ℤ → Update
  controller_error : Bytes → Bytes → Update
  security_violation : Bytes → Bytes → Bytes → Update
  privilege_escalation : Bytes → Bytes → Bytes → Bytes → Update
  system_health : Bytes → Bool → Update
  last_backup : ℤ → Update

unfoldable pub run_update : Update → List Sample
run_update (Update.access_request c u e ps) = record_access_request c u e ps
run_update (Update.approval c u e a t now) = record_access_request_approval c u e a t now
run_update (Update.denial c u e r t now) = record_access_request_denial c u e r t now
run_update (Update.active_sessions c e p n) = set_active_access_sessions c e p n
run_update (Update.session_completion c e ps d) = record_access_session_completion c e ps d
run_update (Update.webhook_request t o s d) = record_webhook_request t o s d
run_update (Update.webhook_validation_error t e f) = record_webhook_validation_error t e f
run_update (Update.aws_api_call s o st r d) = record_aws_api_call s o st r d
run_update (Update.aws_api_error s o c r) = record_aws_api_error s o c r
run_update (Update.slack_command c u ch s d) = record_slack_command c u ch s d
run_update (Update.slack_api_error o e) = record_slack_api_error o e
run_update (Update.controller_reconcile c r d) = record_controller_reconcile c r d
run_update (Update.controller_error c e) = record_controller_error c e
run_update (Update.security_violation v u c) = record_security_violation v u c
run_update (Update.privilege_escalation u f t c) = record_privilege_escalation_attempt u f t c
run_update (Update.system_health c h) = set_system_health_status c h
run_update (Update.last_backup t) = set_last_successful_backup t

abbrev pub IsHistogram : Kind → Type 0
IsHistogram counter = ⊥
IsHistogram gauge = ⊥
IsHistogram (histogram b) = Unit

-- The library takes a call: the vector has the method, and as many labels as there are values.
abbrev pub IsAccepted : Sample → Type 0
IsAccepted (inc m values) = ((vector m).kind ≡ counter) × (length values ≡ length (vector m).labels)
IsAccepted (observe m values t) =
    IsHistogram (vector m).kind × (length values ≡ length (vector m).labels)
IsAccepted (set m values n) = ((vector m).kind ≡ gauge) × (length values ≡ length (vector m).labels)

-- Every function that updates metrics calls the method that the kind of the vector has, with exactly
-- as many label values as the vector declares labels (the library panics at any other number).
pub run_update-IsAccepted : (u : Update) → All IsAccepted (run_update u)
unfolding run_update vector record_access_request record_access_request_approval
    record_access_request_denial set_active_access_sessions record_access_session_completion
    record_webhook_request record_webhook_validation_error record_aws_api_call record_aws_api_error
    record_slack_command record_slack_api_error record_controller_reconcile record_controller_error
    record_security_violation record_privilege_escalation_attempt set_system_health_status
    set_last_successful_backup
run_update-IsAccepted (Update.access_request c u e ps) = ((refl, refl), tt)
run_update-IsAccepted (Update.approval c u e a t now) = ((refl, refl), ((tt, refl), tt))
run_update-IsAccepted (Update.denial c u e r t now) = ((refl, refl), ((tt, refl), tt))
run_update-IsAccepted (Update.active_sessions c e p n) = ((refl, refl), tt)
run_update-IsAccepted (Update.session_completion c e ps d) = ((tt, refl), tt)
run_update-IsAccepted (Update.webhook_request t o s d) = ((refl, refl), ((tt, refl), tt))
run_update-IsAccepted (Update.webhook_validation_error t e f) = ((refl, refl), tt)
run_update-IsAccepted (Update.aws_api_call s o st r d) = ((refl, refl), ((tt, refl), tt))
run_update-IsAccepted (Update.aws_api_error s o c r) = ((refl, refl), tt)
run_update-IsAccepted (Update.slack_command c u ch s d) = ((refl, refl), ((tt, refl), tt))
run_update-IsAccepted (Update.slack_api_error o e) = ((refl, refl), tt)
run_update-IsAccepted (Update.controller_reconcile c r d) = ((refl, refl), ((tt, refl), tt))
run_update-IsAccepted (Update.controller_error c e) = ((refl, refl), tt)
run_update-IsAccepted (Update.security_violation v u c) = ((refl, refl), tt)
run_update-IsAccepted (Update.privilege_escalation u f t c) = ((refl, refl), tt)
run_update-IsAccepted (Update.system_health c h) = ((refl, refl), tt)
run_update-IsAccepted (Update.last_backup t) = ((refl, refl), tt)

-- What init registers, by name.
abbrev pub named : Metric → Bytes × Metric
named m = ((vector m).name, m)

found : (m : Metric) → lookup (vector m).name (map named registered) ≡ some m
unfolding lookup registered vector str_eq
found Metric.access_requests_total = refl
found Metric.access_requests_approved = refl
found Metric.access_requests_denied = refl
found Metric.access_request_duration = refl
found Metric.active_access_sessions = refl
found Metric.access_session_duration = refl
found Metric.webhook_requests_total = refl
found Metric.webhook_request_duration = refl
found Metric.webhook_validation_errors = refl
found Metric.aws_api_calls = refl
found Metric.aws_api_duration = refl
found Metric.aws_api_errors = refl
found Metric.slack_commands_total = refl
found Metric.slack_command_duration = refl
found Metric.slack_api_errors = refl
found Metric.controller_reconcile_total = refl
found Metric.controller_reconcile_duration = refl
found Metric.controller_errors = refl
found Metric.security_violations_total = refl
found Metric.privilege_escalation_attempts = refl
found Metric.system_health_status = refl
found Metric.last_successful_backup = refl
