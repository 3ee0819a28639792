-- ===== src/Observe/Track/Frame.antt =====
-- The one shape that the Track functions of pkg/monitoring/monitoring.go have: a span is started, the
-- wrapped function runs in it with what follows it there, the span is ended, and what follows behind.
use jit_bot.Base.{ℕ, ◌/◌, ◌≡◌, refl, List, [], ◌∷◌, ◌++◌, Option, some, none, Bytes, codes}
use jit_bot.Base.Int.{pos}
use jit_bot.Observe.Metrics.Record
use jit_bot.Observe.Run.{
  Attribute, Provider, Process, Outcome, Run, done, panicked, with_span, pure, emit, emits, samples,
  deferring, ◌>>=◌, ◌>>◌, tracer_start, tracer_start_lem, tracer_start_nil, set_attributes, end,
}
use jit_bot.Observe.Spans.{number_attribute, settle}
use jit_bot.Observe.Track.{call_status, aws_error_samples, settle_reconcile}
use jit_bot.Observe.Track.Calls.{
  Tracked, access, webhook, aws, slack, controller, track, span_name, span_attributes,
  counted_before,
}

abbrev pub timed : Bytes → ℕ → List Attribute
timed key elapsed = number_attribute key (elapsed / 1000000) ∷ []

module _ {E S : Type 0} where
  abbrev pub inside : Tracked → ℕ → Option E → Run E S (Option E)
  inside (access o u c e ps elapsed) span r =
      emits (set_attributes span (timed (codes "jit.duration_ms") elapsed) ∷ [])
      >> settle span (codes "Failed to " ++ (o ++ codes " access request"))
          (codes "Successfully " ++ (o ++ codes "ed access request")) r
  inside (webhook t o elapsed total) span r =
      emits (set_attributes span (timed (codes "jit.duration_ms") elapsed) ∷ [])
      >> settle span (codes "Webhook " ++ (t ++ (codes " " ++ (o ++ codes " failed"))))
          (codes "Webhook " ++ (t ++ (codes " " ++ (o ++ codes " succeeded")))) r
  inside (aws s o region elapsed total) span r =
      emits (set_attributes span (timed (codes "aws.duration_ms") elapsed) ∷ [])
      >> settle span (codes "AWS " ++ (s ++ (codes " " ++ (o ++ codes " failed"))))
          (codes "AWS " ++ (s ++ (codes " " ++ (o ++ codes " succeeded")))) r
  inside (slack c u ch elapsed total) span r =
      emits (set_attributes span (timed (codes "slack.duration_ms") elapsed) ∷ [])
      >> settle span (codes "Slack command " ++ (c ++ codes " failed"))
          (codes "Slack command " ++ (c ++ codes " succeeded")) r
  inside (controller c duration) span r =
      settle_reconcile c span r
      >> (samples (Record.record_controller_reconcile c (call_status r) (pos duration)) >> pure r)

  abbrev pub behind : Tracked → Option E → Run E S (Option E)
  behind (access o u c e ps elapsed) r = pure r
  behind (webhook t o elapsed total) r =
      samples (Record.record_webhook_request t o (call_status r) (pos total)) >> pure r
  behind (aws s o region elapsed total) r =
      samples (aws_error_samples s o region r)
      >> (samples (Record.record_aws_api_call s o (call_status r) region (pos total)) >> pure r)
  behind (slack c u ch elapsed total) r =
      samples (Record.record_slack_command c u ch (call_status r) (pos total)) >> pure r
  behind (controller c duration) r = pure r

  -- The wrapped function and what follows it, behind the start of the span.
  abbrev pub in_span : Tracked → (ℕ → Run E S (Option E)) → ℕ → Run E S (Option E)
  in_span t fn span = deferring (end span ∷ []) (fn span >>= inside t span)

  abbrev pub framed : Tracked → (ℕ → Run E S (Option E)) → Run E S (Option E)
  framed t fn = (tracer_start (span_name t) (span_attributes t) >>= in_span t fn) >>= behind t

  outcome_pure :
      {A : Type 0} (o : Outcome E S A)
      → (elim o [ done a w ↦ pure a w | panicked w ↦ panicked w ]) ≡ o
  outcome_pure (done a w) = refl
  outcome_pure (panicked w) = refl

  pub track-framed :
      (t : Tracked) (fn : ℕ → Run E S (Option E)) (w : Process E S)
      → framed t fn (counted_before t w) ≡ track t fn w
  unfolding track
  track-framed (access o u c e ps elapsed) fn w =
      outcome_pure (track (access o u c e ps elapsed) fn w)
  track-framed (webhook t o elapsed total) fn w = refl
  track-framed (aws s o region elapsed total) fn w = refl
  track-framed (slack c u ch elapsed total) fn w = refl
  track-framed (controller c duration) fn w = outcome_pure (track (controller c duration) fn w)

module _ {E S : Type 0} (t : Tracked) (fn : ℕ → Run E S (Option E)) (w : Process E S) where
  abbrev in_state : Process E S
  in_state = with_span (span_name t) (span_attributes t) w

  pub framed-done :
      (w' : Process E S) (e : Option E) {p : Provider}
      → w.tracer ≡ some p
      → fn w.spans in_state ≡ done e w'
      → framed t fn w ≡ (deferring (end w.spans ∷ []) (inside t w.spans e) >>= behind t) w'
  framed-done w' e h ran =
      rw (◌>>=◌, tracer_start_lem (span_name t) (span_attributes t) w h, deferring, ◌>>=◌, ran) refl

  pub framed-panicked :
      (w' : Process E S) {p : Provider}
      → w.tracer ≡ some p
      → fn w.spans in_state ≡ panicked w'
      → framed t fn w ≡ panicked (emit (end w.spans ∷ []) w')
  framed-panicked w' h ran =
      rw (◌>>=◌, tracer_start_lem (span_name t) (span_attributes t) w h, deferring, ◌>>=◌, ran) refl

  pub framed-nil : w.tracer ≡ none → framed t fn w ≡ panicked w
  framed-nil h = rw (◌>>=◌, tracer_start_nil (span_name t) (span_attributes t) w h) refl
