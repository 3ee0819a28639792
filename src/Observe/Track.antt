-- ===== src/Observe/Track.antt =====
-- The wrappers of pkg/monitoring/monitoring.go that combine metrics and tracing. `elapsed` is what
-- time.Since reads for the span, `total` what it reads for the metrics, in nanoseconds.
pub mod Calls
pub mod Frame
pub mod Transparent
use jit_bot.Base.{ℕ, Bool, List, [], ◌∷◌, ◌++◌, Option, none, some, Bytes, codes}
use jit_bot.Base.Int.{pos}
use jit_bot.Observe.Metrics.{Sample}
use jit_bot.Observe.Metrics.Record
use jit_bot.Observe.Run.{Run, pure, emits, samples, deferring, end, ◌>>=◌, ◌>>◌}
use jit_bot.Observe.Spans.{
  set_span_status, start_controller_span, instrument_access_request, instrument_webhook,
  instrument_aws_call, instrument_slack_command,
}

-- The status of a call by its error.
unfoldable pub call_status {ℓ} : {E : Type ℓ} → Option E → Bytes
call_status none = codes "success"
call_status (some e) = codes "error"

-- The counter of AWS errors, which only an error increments.
unfoldable pub aws_error_samples : {E : Type 0} → Bytes → Bytes → Bytes → Option E → List Sample
aws_error_samples service operation region none = []
aws_error_samples service operation region (some e) =
    Record.record_aws_api_error service operation (codes "unknown") region

module _ {E S : Type 0} where
  unfoldable pub track_access_request :
      Bytes → Bytes → Bytes → Bytes → List Bytes → ℕ → (ℕ → Run E S (Option E)) → Run E S (Option E)
  unfolding Record.record_access_request instrument_access_request
  track_access_request operation user_id cluster environment permissions elapsed fn = do
    samples (Record.record_access_request cluster user_id environment permissions)
    instrument_access_request operation user_id cluster elapsed fn

  unfoldable pub track_webhook_request :
      Bytes → Bytes → ℕ → ℕ → (ℕ → Run E S (Option E)) → Run E S (Option E)
  unfolding instrument_webhook Record.record_webhook_request call_status
  track_webhook_request webhook_type operation elapsed total fn = do
    e ← instrument_webhook webhook_type operation elapsed fn
    samples (Record.record_webhook_request webhook_type operation (call_status e) (pos total))
    pure e

  unfoldable pub track_aws_call :
      Bytes → Bytes → Bytes → ℕ → ℕ → (ℕ → Run E S (Option E)) → Run E S (Option E)
  unfolding instrument_aws_call Record.record_aws_api_call aws_error_samples call_status
  track_aws_call service operation region elapsed total fn = do
    e ← instrument_aws_call service operation region elapsed fn
    samples (aws_error_samples service operation region e)
    samples (Record.record_aws_api_call service operation (call_status e) region (pos total))
    pure e

  unfoldable pub track_slack_command :
      Bytes → Bytes → Bytes → ℕ → ℕ → (ℕ → Run E S (Option E)) → Run E S (Option E)
  unfolding instrument_slack_command Record.record_slack_command call_status
  track_slack_command command user_id channel_id elapsed total fn = do
    e ← instrument_slack_command command elapsed fn
    samples (Record.record_slack_command command user_id channel_id (call_status e) (pos total))
    pure e

  -- The branches of TrackControllerReconcile by the error.
  unfoldable pub settle_reconcile : Bytes → ℕ → Option E → Run E S (Unit {0})
  unfolding set_span_status Record.record_controller_error
  settle_reconcile controller span (some e) = do
    emits (set_span_status span (some e) (codes "Reconciliation failed"))
    samples (Record.record_controller_error controller (codes "reconcile_error"))
  settle_reconcile controller span none =
      emits (set_span_status span none (codes "Reconciliation succeeded"))

  unfoldable pub track_controller_reconcile :
      Bytes → ℕ → (ℕ → Run E S (Option E)) → Run E S (Option E)
  unfolding start_controller_span settle_reconcile Record.record_controller_reconcile call_status
  track_controller_reconcile controller duration fn = do
    span ← start_controller_span controller (codes "reconcile")
    deferring (end span ∷ []) (do
      e ← fn span
      settle_reconcile controller span e
      samples (Record.record_controller_reconcile controller (call_status e) (pos duration))
      pure e)

  unfoldable pub set_component_health : Bytes → Bool → Run E S (Unit {0})
  unfolding Record.set_system_health_status
  set_component_health component healthy =
      samples (Record.set_system_health_status component healthy)

  unfoldable pub monitor_security_violation : Bytes → Bytes → Bytes → Run E S (Unit {0})
  unfolding Record.record_security_violation
  monitor_security_violation violation_type user_id cluster =
      samples (Record.record_security_violation violation_type user_id cluster)

  unfoldable pub record_privilege_escalation : Bytes → Bytes → Bytes → Bytes → Run E S (Unit {0})
  unfolding Record.record_privilege_escalation_attempt
  record_privilege_escalation user_id from_perm to_perm cluster =
      samples (Record.record_privilege_escalation_attempt user_id from_perm to_perm cluster)
