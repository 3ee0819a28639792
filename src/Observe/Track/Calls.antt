-- ===== src/Observe/Track/Calls.antt =====
-- The calls of the Track functions of pkg/monitoring/monitoring.go as data, the span that each opens,
-- and what it should report.
use jit_bot.Base.{ℕ, ◌≡◌, List, [], ◌∷◌, ◌++◌, Option, some, none, Bytes, codes, map}
use jit_bot.Observe.Metrics.{Metric, inc}
use jit_bot.Observe.Metrics.Record
use jit_bot.Observe.Run.{
  Attribute, Call, Code, Process, Run, emit, with_span, sample, set_status, record_error, end,
}
use jit_bot.Observe.Spans.{text_attribute}
use jit_bot.Observe.Track.{
  track_access_request, track_webhook_request, track_aws_call, track_slack_command,
  track_controller_reconcile, call_status,
}

-- A call of a Track function, without the function that it wraps.
pub data Tracked : Type 0 where
  access : (operation user_id cluster environment : Bytes) → List Bytes → ℕ → Tracked
  webhook : (webhook_type operation : Bytes) → ℕ → ℕ → Tracked
  aws : (service operation region : Bytes) → ℕ → ℕ → Tracked
  slack : (command user_id channel_id : Bytes) → ℕ → ℕ → Tracked
  controller : Bytes → ℕ → Tracked

unfoldable pub track : {E S : Type 0} → Tracked → (ℕ → Run E S (Option E)) → Run E S (Option E)
unfolding track_access_request track_webhook_request track_aws_call track_slack_command
    track_controller_reconcile
track (access o u c e ps elapsed) fn = track_access_request o u c e ps elapsed fn
track (webhook t o elapsed total) fn = track_webhook_request t o elapsed total fn
track (aws s o r elapsed total) fn = track_aws_call s o r elapsed total fn
track (slack c u ch elapsed total) fn = track_slack_command c u ch elapsed total fn
track (controller c duration) fn = track_controller_reconcile c duration fn

abbrev pub span_name : Tracked → Bytes
span_name (access o u c e ps elapsed) = codes "access_request." ++ o
span_name (webhook t o elapsed total) = codes "webhook." ++ (t ++ (codes "." ++ o))
span_name (aws s o r elapsed total) = codes "aws." ++ (s ++ (codes "." ++ o))
span_name (slack c u ch elapsed total) = codes "slack.command"
span_name (controller c duration) = codes "controller." ++ (c ++ codes ".reconcile")

abbrev pub span_attributes : Tracked → List Attribute
span_attributes (access o u c e ps elapsed) =
    text_attribute (codes "jit.operation") o
    ∷ text_attribute (codes "jit.user_id") u
    ∷ text_attribute (codes "jit.cluster") c
    ∷ text_attribute (codes "jit.component") (codes "access-request")
    ∷ []
span_attributes (webhook t o elapsed total) =
    text_attribute (codes "jit.webhook_type") t
    ∷ text_attribute (codes "jit.operation") o
    ∷ text_attribute (codes "jit.component") (codes "webhook")
    ∷ []
span_attributes (aws s o r elapsed total) =
    text_attribute (codes "aws.service") s
    ∷ text_attribute (codes "aws.operation") o
    ∷ text_attribute (codes "aws.region") r
    ∷ text_attribute (codes "jit.component") (codes "aws-integration")
    ∷ []
span_attributes (slack c u ch elapsed total) =
    text_attribute (codes "slack.operation") (codes "command")
    ∷ text_attribute (codes "slack.command") c
    ∷ text_attribute (codes "jit.component") (codes "slack-integration")
    ∷ []
span_attributes (controller c duration) =
    text_attribute (codes "k8s.controller") c
    ∷ text_attribute (codes "k8s.operation") (codes "reconcile")
    ∷ text_attribute (codes "jit.component") (codes "controller")
    ∷ []

module _ {E : Type 0} where
  -- The statuses, the errors, the ends and the increments among calls, in order.
  abbrev pub statuses : List (Call E) → List (ℕ × Code)
  statuses [] = []
  statuses (set_status span code text ∷ l) = (span, code) ∷ statuses l
  statuses (_ ∷ l) = statuses l

  abbrev pub errors : List (Call E) → List (ℕ × E)
  errors [] = []
  errors (record_error span e ∷ l) = (span, e) ∷ errors l
  errors (_ ∷ l) = errors l

  abbrev pub ends : List (Call E) → List ℕ
  ends [] = []
  ends (end span ∷ l) = span ∷ ends l
  ends (_ ∷ l) = ends l

  abbrev pub increments : List (Call E) → List (Metric × List Bytes)
  increments [] = []
  increments (sample (inc m values) ∷ l) = (m, values) ∷ increments l
  increments (_ ∷ l) = increments l

  -- The counters that a call increments behind its span, by the error of the wrapped function.
  abbrev pub counted : Tracked → Option E → List (Metric × List Bytes)
  counted (access o u c e ps elapsed) _ = []
  counted (webhook t o elapsed total) r =
      (Metric.webhook_requests_total, t ∷ o ∷ call_status r ∷ []) ∷ []
  counted (aws s o region elapsed total) none =
      (Metric.aws_api_calls, s ∷ o ∷ codes "success" ∷ region ∷ []) ∷ []
  counted (aws s o region elapsed total) (some e) =
      (Metric.aws_api_errors, s ∷ o ∷ codes "unknown" ∷ region ∷ [])
      ∷ (Metric.aws_api_calls, s ∷ o ∷ codes "error" ∷ region ∷ [])
      ∷ []
  counted (slack c u ch elapsed total) r =
      (Metric.slack_commands_total, c ∷ u ∷ ch ∷ call_status r ∷ []) ∷ []
  counted (controller c duration) none =
      (Metric.controller_reconcile_total, c ∷ codes "success" ∷ []) ∷ []
  counted (controller c duration) (some e) =
      (Metric.controller_errors, c ∷ codes "reconcile_error" ∷ [])
      ∷ (Metric.controller_reconcile_total, c ∷ codes "error" ∷ [])
      ∷ []

  -- The calls behind the wrapped function: the span gets one status, by the error, the error if
  -- there is one, and one end; and the counters are those of the call.
  abbrev pub IsReported : Tracked → ℕ → Option E → List (Call E) → Type 0
  IsReported t span none calls =
      (statuses calls ≡ (span, Code.ok_code) ∷ [])
      × (errors calls ≡ [])
      × (ends calls ≡ span ∷ [])
      × (increments calls ≡ counted t none)
  IsReported t span (some e) calls =
      (statuses calls ≡ (span, Code.error_code) ∷ [])
      × (errors calls ≡ (span, e) ∷ [])
      × (ends calls ≡ span ∷ [])
      × (increments calls ≡ counted t (some e))

module _ {E S : Type 0} where
  -- The state before the span: only TrackAccessRequest counts before it.
  abbrev pub counted_before : Tracked → Process E S → Process E S
  counted_before (access o u c e ps elapsed) w =
      emit (map sample (Record.record_access_request c u e ps)) w
  counted_before (webhook t o elapsed total) w = w
  counted_before (aws s o r elapsed total) w = w
  counted_before (slack c u ch elapsed total) w = w
  counted_before (controller c duration) w = w

  -- The state in which the wrapped function is called.
  abbrev pub opened : Tracked → Process E S → Process E S
  opened t w = with_span (span_name t) (span_attributes t) (counted_before t w)
