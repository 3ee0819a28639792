-- ===== src/Tests/Telemetry.antt =====
-- The observability of the operator on concrete inputs.
use jit_bot.Base.{
  true, ℕ, ◌≡◌, refl, ◌↔◌, false, List, [], ◌∷◌, Option, none, some, Bytes, codes, All, str_eq, map,
}
use jit_bot.Base.Int.{pos}
use jit_bot.Base.Result.{ok}
use jit_bot.Observe.Metrics.Labelled.{Update, run_update, IsAccepted, run_update-IsAccepted}
use jit_bot.Observe.Run.{Call, Provider, Process, Run, done, panicked, emit, sample}
use jit_bot.Observe.Tracing.{
  Surroundings, create_exporter, make_provider, init_tracing, provider_at,
}
use jit_bot.Observe.Tracing.Accepted.{IsInitialised, init_tracing_iff}
use jit_bot.Observe.Monitor.{
  Monitor, new_monitor, start_monitor, initialize_health_checks, default_config, production_config,
}
use jit_bot.Observe.Monitor.Untraced.{untraced_panics}
use jit_bot.Observe.Middleware.{HttpRequest, http_middleware}
use jit_bot.Observe.Middleware.Status.{IsOk, in_request, http_middleware-IsOk}
use jit_bot.Observe.Track.Calls.{Tracked, track, counted_before, opened, IsReported}
use jit_bot.Observe.Track.Transparent.{track_returns}

-- An approval gives a counter four labels and a histogram three.
run_update-IsAccepted_example : All IsAccepted (
    run_update
      (Update.approval (codes "dev-1") (codes "U1") (codes "dev") (codes "U2") (pos 5) (pos 9)))
run_update-IsAccepted_example =
    run_update-IsAccepted
      (Update.approval (codes "dev-1") (codes "U1") (codes "dev") (codes "U2") (pos 5) (pos 9))

abbrev pub untraced : Process Bytes ℕ
untraced = record { tracer = none; propagates = false; spans = 0; calls = []; rest = 0 }

abbrev traced : Process Bytes ℕ
traced = record untraced { tracer = some Provider.no_op }

-- A function that counts its call and fails.
abbrev failing : ℕ → Run Bytes ℕ (Option Bytes)
failing span w = done (some (codes "denied")) (record w { rest = 1 })

abbrev describe_call : Tracked
describe_call =
    Tracked.aws (codes "eks") (codes "DescribeCluster") (codes "us-east-1") 5000000 6000000

abbrev after_failure : Process Bytes ℕ
after_failure = record (opened describe_call traced) { rest = 1 }

track_returns_example :
    (calls : List (Call Bytes)) × ((track describe_call failing traced
        ≡ done (some (codes "denied")) (emit calls after_failure))
      × IsReported describe_call 0 (some (codes "denied")) calls)
track_returns_example =
    track_returns describe_call failing traced after_failure (some (codes "denied")) refl refl

-- No variable is set, and every exporter can be made.
abbrev pub plain : Surroundings Bytes
plain = record { getenv = λ _. []; resource_error = none; exporter_error = λ _. none }

abbrev pub started : Process Bytes ℕ
started = emit (map sample initialize_health_checks) untraced

abbrev default_started : Monitor
default_started = record (new_monitor default_config) {
  metrics_server = some 8080;
  health_server = some 8081;
}

starts :
    start_monitor plain (new_monitor default_config) untraced ≡ done (ok default_started) started
unfolding start_monitor new_monitor
starts = refl

untraced_panics_example :
    track describe_call failing started ≡ panicked (counted_before describe_call started)
unfolding new_monitor
untraced_panics_example =
    untraced_panics plain (new_monitor default_config) untraced describe_call failing refl refl
      starts

abbrev production_provider : Provider
production_provider = provider_at plain production_config.tracing (codes "localhost:4317")

abbrev in_production : Process Bytes ℕ
in_production = record untraced { tracer = some production_provider; propagates = true }

init_tracing_iff_example :
    (init_tracing plain production_config.tracing untraced
      ≡ done (ok production_provider) in_production)
    ↔ IsInitialised plain production_config.tracing production_provider untraced in_production
init_tracing_iff_example =
    init_tracing_iff plain production_config.tracing production_provider untraced in_production

makes : make_provider plain production_config.tracing ≡ ok production_provider
unfolding make_provider create_exporter str_eq
makes = refl

-- A handler that answers 500.
abbrev broken : ℕ → Run Bytes ℕ (List ℕ)
broken span w = done (500 ∷ []) (record w { rest = 1 })

abbrev request : HttpRequest
request = record {
  method = codes "GET";
  path = codes "/api";
  url = codes "/api?x=1";
  user_agent = codes "curl";
  headers = (codes "Accept", codes "*" ∷ []) ∷ [];
}

abbrev after_broken : Process Bytes ℕ
after_broken = record (in_request request traced) { rest = 1 }

abbrev digits : ℕ → Bytes
digits _ = codes "500"

http_middleware-IsOk_example :
    (calls : List (Call Bytes)) × ((http_middleware digits request 7000000 broken traced
        ≡ done (record { status_code = 500; passed_on = 500 ∷ [] }) (emit calls after_broken))
      × IsOk 0 calls)
http_middleware-IsOk_example =
    http_middleware-IsOk digits request 7000000 broken traced after_broken (500 ∷ []) refl refl
