-- ===== src/Observe/Monitor.antt =====
-- The monitor of pkg/monitoring/monitoring.go: its start and stop, its health endpoints, its
-- configurations. The monitor is a value that its methods change; a server that was started is the
-- port of its address. Its goroutine only logs.
pub mod Untraced
pub mod Stopped
use jit_bot.Base.{
  ℕ, Bool, true, false, List, [], ◌∷◌, ◌++◌, Option, none, some, Bytes, codes, if◌then◌else◌,
}
use jit_bot.Base.Int.{pos}
use jit_bot.Base.Result.{Result, ok, err}
use jit_bot.Observe.Metrics.{Sample}
use jit_bot.Observe.Metrics.Record.{set_system_health_status}
use jit_bot.Observe.Run.{Provider, Run, pure, samples, ◌>>=◌, ◌>>◌}
use jit_bot.Observe.Tracing.{TracingConfig, InitError, Surroundings, init_tracing}

pub record MonitorConfig : Type 0 where
  pub metrics_enabled : Bool
  pub metrics_port : ℕ
  pub health_port : ℕ
  pub tracing : TracingConfig

pub record Monitor : Type 0 where
  pub config : MonitorConfig
  pub tracer_provider : Option Provider
  pub metrics_server : Option ℕ
  pub health_server : Option ℕ

unfoldable pub new_monitor : MonitorConfig → Monitor
new_monitor config = record {
  config = config;
  tracer_provider = none;
  metrics_server = none;
  health_server = none;
}

unfoldable pub start_metrics_server : Monitor → Monitor
start_metrics_server m = record m { metrics_server = some m.config.metrics_port }

unfoldable pub start_health_server : Monitor → Monitor
start_health_server m = record m { health_server = some m.config.health_port }

unfoldable pub initialize_health_checks : List Sample
unfolding set_system_health_status
initialize_health_checks =
    set_system_health_status (codes "operator") true
    ++ (set_system_health_status (codes "webhook") true
        ++ (set_system_health_status (codes "aws") true
            ++ set_system_health_status (codes "slack") true))

unfoldable pub is_system_ready : Monitor → Bool
is_system_ready m = true

-- A status and a body.
unfoldable pub healthz : Monitor → ℕ × Bytes
healthz m = (200, codes "ok")

unfoldable pub readyz : Monitor → ℕ × Bytes
unfolding is_system_ready
readyz m = if is_system_ready m then (200, codes "ready") else (503, codes "not ready")

unfoldable pub livez : Monitor → ℕ × Bytes
livez m = (200, codes "alive")

module _ {X E S : Type 0} where
  -- The part of Start behind the tracing.
  unfoldable pub start_servers : Monitor → Run E S (Result (InitError X) Monitor)
  unfolding start_metrics_server start_health_server initialize_health_checks
  start_servers m =
      let m' = if m.config.metrics_enabled then start_metrics_server m else m in
      samples initialize_health_checks >> pure (ok (start_health_server m'))

  -- What follows the answer of InitTracing.
  unfoldable pub with_tracing :
      Monitor → Result (InitError X) Provider → Run E S (Result (InitError X) Monitor)
  unfolding start_servers
  with_tracing m (err e) = pure (err e)
  with_tracing m (ok provider) = start_servers (record m { tracer_provider = some provider })

  -- Start. With an error the monitor is as before.
  unfoldable pub start_monitor : Surroundings X → Monitor → Run E S (Result (InitError X) Monitor)
  unfolding init_tracing start_servers with_tracing
  start_monitor out m =
      if m.config.tracing.enabled
      then (init_tracing out m.config.tracing >>= with_tracing m)
      else start_servers m

pub data Part : Type 0 where
  metrics_part health_part tracer_part : Part

-- The step of Stop for one service: what is shut down, and its error.
unfoldable pub shut_down :
    {X A : Type 0} → (Part → Option X) → Part → Option A → List Part × List (Part × X)
shut_down answers part none = ([], [])
shut_down answers part (some server) =
    (part ∷ [], elim (answers part) [ none ↦ [] | some e ↦ (part, e) ∷ [] ])

-- Stop: the services that are shut down, in order, and the errors; none of them is nil.
unfoldable pub stop_monitor :
    {X : Type 0} → (Part → Option X) → Monitor → List Part × List (Part × X)
unfolding shut_down
stop_monitor answers m =
    let (tried1, errs1) = shut_down answers metrics_part m.metrics_server in
    let (tried2, errs2) = shut_down answers health_part m.health_server in
    let (tried3, errs3) = shut_down answers tracer_part m.tracer_provider in
    (tried1 ++ (tried2 ++ tried3), errs1 ++ (errs2 ++ errs3))

abbrev pub default_config : MonitorConfig
default_config = record {
  metrics_enabled = true;
  metrics_port = 8080;
  health_port = 8081;
  tracing = record {
    enabled = false;
    exporter = codes "jaeger";
    endpoint = [];
    service_name = codes "jit-bot";
    environment = codes "development";
    sample_rate = pos 100;
  };
}

abbrev pub production_config : MonitorConfig
production_config = record {
  metrics_enabled = true;
  metrics_port = 8080;
  health_port = 8081;
  tracing = record {
    enabled = true;
    exporter = codes "otlp";
    endpoint = [];
    service_name = codes "jit-bot";
    environment = codes "production";
    sample_rate = pos 50;
  };
}
