-- ===== src/Observe/Track/Transparent.antt =====
-- What the Track functions of pkg/monitoring/monitoring.go do around the function that they wrap.
use jit_bot.Base.{
  ℕ, ◌≡◌, refl, sym, ◌∙◌, append_assoc, List, [], ◌∷◌, ◌++◌, Option, some, none, Bytes, codes, map,
}
use jit_bot.Base.Int.{pos}
use jit_bot.Observe.Metrics.Record
use jit_bot.Observe.Run.{
  Call, Code, Provider, Process, Run, done, panicked, emit, deferring, ◌>>=◌, sample,
  set_attributes, set_status, record_error, end,
}
use jit_bot.Observe.Spans.{settle}
use jit_bot.Observe.Track.{call_status, aws_error_samples, settle_reconcile}
use jit_bot.Observe.Track.Calls.{
  Tracked, access, webhook, aws, slack, controller, track, counted_before, opened, IsReported,
}
use jit_bot.Observe.Track.Frame.{
  timed, inside, behind, framed, track-framed, framed-done, framed-panicked, framed-nil,
}

module _ {E : Type 0} where
  status_calls : ℕ → Bytes → Bytes → Option E → List (Call E)
  status_calls span failed succeeded none = set_status span Code.ok_code succeeded ∷ end span ∷ []
  status_calls span failed succeeded (some e) =
      set_status span Code.error_code failed ∷ record_error span e ∷ end span ∷ []

  -- The calls behind the wrapped function.
  closing : Tracked → ℕ → Option E → List (Call E)
  closing (access o u c e ps elapsed) span r =
      set_attributes span (timed (codes "jit.duration_ms") elapsed)
      ∷ status_calls span (codes "Failed to " ++ (o ++ codes " access request"))
          (codes "Successfully " ++ (o ++ codes "ed access request")) r
  closing (webhook t o elapsed total) span r =
      set_attributes span (timed (codes "jit.duration_ms") elapsed)
      ∷ (status_calls span (codes "Webhook " ++ (t ++ (codes " " ++ (o ++ codes " failed"))))
            (codes "Webhook " ++ (t ++ (codes " " ++ (o ++ codes " succeeded")))) r
          ++ map sample (Record.record_webhook_request t o (call_status r) (pos total)))
  closing (aws s o region elapsed total) span r =
      set_attributes span (timed (codes "aws.duration_ms") elapsed)
      ∷ (status_calls span (codes "AWS " ++ (s ++ (codes " " ++ (o ++ codes " failed"))))
            (codes "AWS " ++ (s ++ (codes " " ++ (o ++ codes " succeeded")))) r
          ++ map sample (
              aws_error_samples s o region r
              ++ Record.record_aws_api_call s o (call_status r) region (pos total)))
  closing (slack c u ch elapsed total) span r =
      set_attributes span (timed (codes "slack.duration_ms") elapsed)
      ∷ (status_calls span (codes "Slack command " ++ (c ++ codes " failed"))
            (codes "Slack command " ++ (c ++ codes " succeeded")) r
          ++ map sample (Record.record_slack_command c u ch (call_status r) (pos total)))
  closing (controller c duration) span none =
      set_status span Code.ok_code (codes "Reconciliation succeeded")
      ∷ (map sample (Record.record_controller_reconcile c (codes "success") (pos duration))
          ++ end span ∷ [])
  closing (controller c duration) span (some e) =
      set_status span Code.error_code (codes "Reconciliation failed")
      ∷ record_error span e
      ∷ (map sample (
            Record.record_controller_error c (codes "reconcile_error")
            ++ Record.record_controller_reconcile c (codes "error") (pos duration))
          ++ end span ∷ [])

  closing-IsReported :
      (t : Tracked) (span : ℕ) (r : Option E) → IsReported t span r (closing t span r)
  unfolding closing status_calls call_status aws_error_samples Record.record_webhook_request
      Record.record_aws_api_call Record.record_aws_api_error Record.record_slack_command
      Record.record_controller_reconcile Record.record_controller_error
  closing-IsReported (access o u c e ps elapsed) span none = (refl, refl, refl, refl)
  closing-IsReported (access o u c e ps elapsed) span (some x) = (refl, refl, refl, refl)
  closing-IsReported (webhook t o elapsed total) span none = (refl, refl, refl, refl)
  closing-IsReported (webhook t o elapsed total) span (some x) = (refl, refl, refl, refl)
  closing-IsReported (aws s o region elapsed total) span none = (refl, refl, refl, refl)
  closing-IsReported (aws s o region elapsed total) span (some x) = (refl, refl, refl, refl)
  closing-IsReported (slack c u ch elapsed total) span none = (refl, refl, refl, refl)
  closing-IsReported (slack c u ch elapsed total) span (some x) = (refl, refl, refl, refl)
  closing-IsReported (controller c duration) span none = (refl, refl, refl, refl)
  closing-IsReported (controller c duration) span (some x) = (refl, refl, refl, refl)

module _ {E S : Type 0} where
  -- What follows the wrapped function makes the calls of `closing`.
  closed :
      (t : Tracked) (e : Option E) (span : ℕ) (w : Process E S)
      → (deferring (end span ∷ []) (inside t span e) >>= behind t) w
        ≡ done e (emit (closing t span e) w)
  unfolding settle settle_reconcile aws_error_samples call_status closing status_calls
      Record.record_aws_api_error
  closed (access o u c e ps elapsed) none span w = simp append_assoc
  closed (access o u c e ps elapsed) (some x) span w = simp append_assoc
  closed (webhook t o elapsed total) none span w = simp append_assoc
  closed (webhook t o elapsed total) (some x) span w = simp append_assoc
  closed (aws s o region elapsed total) none span w = simp append_assoc
  closed (aws s o region elapsed total) (some x) span w = simp append_assoc
  closed (slack c u ch elapsed total) none span w = simp append_assoc
  closed (slack c u ch elapsed total) (some x) span w = simp append_assoc
  closed (controller c duration) none span w = simp append_assoc
  closed (controller c duration) (some x) span w = simp append_assoc

  track-closing :
      (t : Tracked) (fn : ℕ → Run E S (Option E)) (w w' : Process E S) (e : Option E) {p : Provider}
      → w.tracer ≡ some p
      → fn w.spans (opened t w) ≡ done e w'
      → framed t fn (counted_before t w) ≡ done e (emit (closing t w.spans e) w')
  track-closing (access o u c e ps elapsed) fn w w' r h ran =
      framed-done (access o u c e ps elapsed) fn (counted_before (access o u c e ps elapsed) w) w' r
        h ran
      ∙ closed (access o u c e ps elapsed) r w.spans w'
  track-closing (webhook t o elapsed total) fn w w' r h ran =
      framed-done (webhook t o elapsed total) fn (counted_before (webhook t o elapsed total) w) w' r
        h ran
      ∙ closed (webhook t o elapsed total) r w.spans w'
  track-closing (aws s o region elapsed total) fn w w' r h ran =
      framed-done (aws s o region elapsed total) fn
        (counted_before (aws s o region elapsed total) w) w' r h ran
      ∙ closed (aws s o region elapsed total) r w.spans w'
  track-closing (slack c u ch elapsed total) fn w w' r h ran =
      framed-done (slack c u ch elapsed total) fn (counted_before (slack c u ch elapsed total) w) w'
        r h ran
      ∙ closed (slack c u ch elapsed total) r w.spans w'
  track-closing (controller c duration) fn w w' r h ran =
      framed-done (controller c duration) fn (counted_before (controller c duration) w) w' r h ran
      ∙ closed (controller c duration) r w.spans w'

  track-panicked :
      (t : Tracked) (fn : ℕ → Run E S (Option E)) (w w' : Process E S) {p : Provider}
      → w.tracer ≡ some p
      → fn w.spans (opened t w) ≡ panicked w'
      → framed t fn (counted_before t w) ≡ panicked (emit (end w.spans ∷ []) w')
  track-panicked (access o u c e ps elapsed) fn w w' h ran =
      framed-panicked (access o u c e ps elapsed) fn (counted_before (access o u c e ps elapsed) w)
        w' h ran
  track-panicked (webhook t o elapsed total) fn w w' h ran =
      framed-panicked (webhook t o elapsed total) fn (counted_before (webhook t o elapsed total) w)
        w' h ran
  track-panicked (aws s o region elapsed total) fn w w' h ran =
      framed-panicked (aws s o region elapsed total) fn
        (counted_before (aws s o region elapsed total) w) w' h ran
  track-panicked (slack c u ch elapsed total) fn w w' h ran =
      framed-panicked (slack c u ch elapsed total) fn
        (counted_before (slack c u ch elapsed total) w) w' h ran
  track-panicked (controller c duration) fn w w' h ran =
      framed-panicked (controller c duration) fn (counted_before (controller c duration) w) w' h ran

  counted_before_tracer :
      (t : Tracked) (w : Process E S) → w.tracer ≡ none → (counted_before t w).tracer ≡ none
  counted_before_tracer (access o u c e ps elapsed) w h = h
  counted_before_tracer (webhook t o elapsed total) w h = h
  counted_before_tracer (aws s o region elapsed total) w h = h
  counted_before_tracer (slack c u ch elapsed total) w h = h
  counted_before_tracer (controller c duration) w h = h

-- With a tracer each Track function returns the error of the function that it wraps and the state as
-- that function left it; behind it the calls give the function's span one status, by the error, record
-- the error if there is one, end the span once, and increment exactly the counters of the call.
pub track_returns :
    {E S : Type 0} (t : Tracked) (fn : ℕ → Run E S (Option E)) (w w' : Process E S) (e : Option E)
    {p : Provider}
    → w.tracer ≡ some p
    → fn w.spans (opened t w) ≡ done e w'
    → (calls : List (Call E)) × ((track t fn w ≡ done e (emit calls w'))
        × IsReported t w.spans e calls)
track_returns t fn w w' e h ran = (
  closing t w.spans e,
  (sym (track-framed t fn w) ∙ track-closing t fn w w' e h ran, closing-IsReported t w.spans e),
)

-- With a tracer a panic of the wrapped function passes through each Track function: the span is ended,
-- and nothing is counted behind it.
pub track_panics :
    {E S : Type 0} (t : Tracked) (fn : ℕ → Run E S (Option E)) (w w' : Process E S) {p : Provider}
    → w.tracer ≡ some p
    → fn w.spans (opened t w) ≡ panicked w'
    → track t fn w ≡ panicked (emit (end w.spans ∷ []) w')
track_panics t fn w w' h ran = sym (track-framed t fn w) ∙ track-panicked t fn w w' h ran

-- Without a tracer each Track function panics and never calls the function that it wraps.
pub track-nil :
    {E S : Type 0} (t : Tracked) (fn : ℕ → Run E S (Option E)) (w : Process E S)
    → w.tracer ≡ none
    → track t fn w ≡ panicked (counted_before t w)
track-nil t fn w h =
    sym (track-framed t fn w) ∙ framed-nil t fn (counted_before t w) (counted_before_tracer t w h)
