-- ===== src/Observe/Spans.antt =====
-- The span helpers and the instrumentation helpers of pkg/telemetry/tracing.go. The span that a
-- context carries is handed on as its number; `elapsed` is the time in nanoseconds that time.Since
-- reads.
use jit_bot.Base.{
  Bool, if◌then◌else◌, ℕ, ◌/◌, List, [], ◌∷◌, ◌++◌, Option, none, some, Bytes, codes, length,
}
use jit_bot.Observe.Run.{
  Value, Attribute, Call, Code, Run, pure, emits, deferring, tracer_start, add_event,
  set_attributes, set_status, record_error, end, extract, ◌>>=◌, ◌>>◌,
}

abbrev pub text_attribute : Bytes → Bytes → Attribute
text_attribute key text = record { key = key; value = Value.string text }

abbrev pub number_attribute : Bytes → ℕ → Attribute
number_attribute key number = record { key = key; value = Value.int number }

unfoldable pub user_attributes : Bytes → Bytes → List Attribute
user_attributes user_id user_email =
    text_attribute (codes "user.id") user_id ∷ text_attribute (codes "user.email") user_email ∷ []

unfoldable pub cluster_attributes : Bytes → Bytes → Bytes → List Attribute
cluster_attributes cluster account region =
    text_attribute (codes "aws.cluster") cluster
    ∷ text_attribute (codes "aws.account") account
    ∷ text_attribute (codes "aws.region") region
    ∷ []

unfoldable pub permission_attributes : List Bytes → List Attribute
permission_attributes permissions =
    record { key = codes "jit.permissions"; value = Value.strings permissions }
    ∷ number_attribute (codes "jit.permission_count") (length permissions)
    ∷ []

unfoldable pub request_attributes : Bytes → Bytes → Bytes → List Attribute
request_attributes request_id reason duration =
    text_attribute (codes "jit.request_id") request_id
    ∷ text_attribute (codes "jit.reason") reason
    ∷ text_attribute (codes "jit.duration") duration
    ∷ []

-- The calls of SetSpanStatus.
unfoldable pub set_span_status : {E : Type 0} → ℕ → Option E → Bytes → List (Call E)
set_span_status span (some e) message =
    set_status span Code.error_code message ∷ record_error span e ∷ []
set_span_status span none message = set_status span Code.ok_code message ∷ []

-- The context of a span, as the library gives it.
pub record SpanContext : Type 0 where
  pub is_valid : Bool
  pub trace : Bytes
  pub span : Bytes

unfoldable pub trace_id : SpanContext → Bytes
trace_id c = if c.is_valid then c.trace else []

unfoldable pub span_id : SpanContext → Bytes
span_id c = if c.is_valid then c.span else []

-- The propagator that is installed writes the trace of a context into a map.
unfoldable pub inject_trace_context :
    {C : Type 0}
    → (C → List (Bytes × Bytes) → List (Bytes × Bytes))
    → C
    → List (Bytes × Bytes)
    → List (Bytes × Bytes)
inject_trace_context propagator context carrier = propagator context carrier

module _ {E S : Type 0} where
  unfoldable pub extract_trace_context : List (Bytes × Bytes) → Run E S (Unit {0})
  extract_trace_context carrier = emits (extract carrier ∷ [])

  unfoldable pub start_span : Bytes → List Attribute → Run E S ℕ
  start_span name attributes = tracer_start name attributes

  unfoldable pub start_access_request_span : Bytes → Bytes → Bytes → Run E S ℕ
  start_access_request_span operation user_id cluster =
      tracer_start (codes "access_request." ++ operation) (
        text_attribute (codes "jit.operation") operation
        ∷ text_attribute (codes "jit.user_id") user_id
        ∷ text_attribute (codes "jit.cluster") cluster
        ∷ text_attribute (codes "jit.component") (codes "access-request")
        ∷ [])

  unfoldable pub start_webhook_span : Bytes → Bytes → Run E S ℕ
  start_webhook_span webhook_type operation =
      tracer_start (codes "webhook." ++ (webhook_type ++ (codes "." ++ operation))) (
        text_attribute (codes "jit.webhook_type") webhook_type
        ∷ text_attribute (codes "jit.operation") operation
        ∷ text_attribute (codes "jit.component") (codes "webhook")
        ∷ [])

  unfoldable pub start_aws_span : Bytes → Bytes → Bytes → Run E S ℕ
  start_aws_span service operation region =
      tracer_start (codes "aws." ++ (service ++ (codes "." ++ operation))) (
        text_attribute (codes "aws.service") service
        ∷ text_attribute (codes "aws.operation") operation
        ∷ text_attribute (codes "aws.region") region
        ∷ text_attribute (codes "jit.component") (codes "aws-integration")
        ∷ [])

  unfoldable pub start_slack_span : Bytes → Bytes → Run E S ℕ
  start_slack_span operation command = tracer_start (codes "slack." ++ operation) (
      text_attribute (codes "slack.operation") operation
      ∷ text_attribute (codes "slack.command") command
      ∷ text_attribute (codes "jit.component") (codes "slack-integration")
      ∷ [])

  unfoldable pub start_controller_span : Bytes → Bytes → Run E S ℕ
  start_controller_span controller operation =
      tracer_start (codes "controller." ++ (controller ++ (codes "." ++ operation))) (
        text_attribute (codes "k8s.controller") controller
        ∷ text_attribute (codes "k8s.operation") operation
        ∷ text_attribute (codes "jit.component") (codes "controller")
        ∷ [])

  unfoldable pub add_span_event : ℕ → Bytes → List Attribute → Run E S (Unit {0})
  add_span_event span name attributes = emits (add_event span name attributes ∷ [])

  unfoldable pub set_span_attributes : ℕ → List Attribute → Run E S (Unit {0})
  set_span_attributes span attributes = emits (set_attributes span attributes ∷ [])

  -- The end of an instrumented call: the status of its span by the error, which is returned.
  unfoldable pub settle : ℕ → Bytes → Bytes → Option E → Run E S (Option E)
  unfolding set_span_status
  settle span failed succeeded (some e) = do
    emits (set_span_status span (some e) failed)
    pure (some e)
  settle span failed succeeded none = do emits (set_span_status span none succeeded); pure none

  unfoldable pub instrument_access_request :
      Bytes → Bytes → Bytes → ℕ → (ℕ → Run E S (Option E)) → Run E S (Option E)
  unfolding start_access_request_span settle
  instrument_access_request operation user_id cluster elapsed fn = do
    span ← start_access_request_span operation user_id cluster
    deferring (end span ∷ []) (do
      e ← fn span
      emits (
          set_attributes span (number_attribute (codes "jit.duration_ms") (elapsed / 1000000) ∷ [])
          ∷ [])
      settle span (codes "Failed to " ++ (operation ++ codes " access request"))
          (codes "Successfully " ++ (operation ++ codes "ed access request")) e)

  unfoldable pub instrument_webhook :
      Bytes → Bytes → ℕ → (ℕ → Run E S (Option E)) → Run E S (Option E)
  unfolding start_webhook_span settle
  instrument_webhook webhook_type operation elapsed fn = do
    span ← start_webhook_span webhook_type operation
    deferring (end span ∷ []) (do
      e ← fn span
      emits (
          set_attributes span (number_attribute (codes "jit.duration_ms") (elapsed / 1000000) ∷ [])
          ∷ [])
      settle span
          (codes "Webhook " ++ (webhook_type ++ (codes " " ++ (operation ++ codes " failed"))))
          (codes "Webhook " ++ (webhook_type ++ (codes " " ++ (operation ++ codes " succeeded"))))
          e)

  unfoldable pub instrument_aws_call :
      Bytes → Bytes → Bytes → ℕ → (ℕ → Run E S (Option E)) → Run E S (Option E)
  unfolding start_aws_span settle
  instrument_aws_call service operation region elapsed fn = do
    span ← start_aws_span service operation region
    deferring (end span ∷ []) (do
      e ← fn span
      emits (
          set_attributes span (number_attribute (codes "aws.duration_ms") (elapsed / 1000000) ∷ [])
          ∷ [])
      settle span (codes "AWS " ++ (service ++ (codes " " ++ (operation ++ codes " failed"))))
          (codes "AWS " ++ (service ++ (codes " " ++ (operation ++ codes " succeeded")))) e)

  unfoldable pub instrument_slack_command :
      Bytes → ℕ → (ℕ → Run E S (Option E)) → Run E S (Option E)
  unfolding start_slack_span settle
  instrument_slack_command command elapsed fn = do
    span ← start_slack_span (codes "command") command
    deferring (end span ∷ []) (do
      e ← fn span
      emits (
          set_attributes span
            (number_attribute (codes "slack.duration_ms") (elapsed / 1000000) ∷ [])
          ∷ [])
      settle span (codes "Slack command " ++ (command ++ codes " failed"))
          (codes "Slack command " ++ (command ++ codes " succeeded")) e)
