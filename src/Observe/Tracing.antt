-- ===== src/Observe/Tracing.antt =====
-- Start-up and span helpers of pkg/telemetry/tracing.go. The environment of the process, and whether
-- the resource and the exporter for an endpoint can be made, are answers of libraries.
pub mod Accepted
use jit_bot.Base.{
  ℕ, Bool, true, false, List, [], ◌∷◌, ◌++◌, Option, none, some, Bytes, codes, length, str_eq,
  if◌then◌else◌,
}
use jit_bot.Base.Int.{ℤ, pos, ltb_ℤ}
use jit_bot.Base.Result.{Result, ok, err}
use jit_bot.Webhook.Duration.{is_nil}
use jit_bot.Observe.Run.{
  Value, Attribute, Call, Exporting, Provider, Process, Outcome, Run, Code, done, emits,
  tracer_start,
}

abbrev pub service_name : Bytes
service_name = codes "jit-bot"

abbrev pub service_version : Bytes
service_version = codes "1.0.0"

-- The sample rate is in thousandths.
pub record TracingConfig : Type 0 where
  pub enabled : Bool
  pub exporter : Bytes
  pub endpoint : Bytes
  pub service_name : Bytes
  pub environment : Bytes
  pub sample_rate : ℤ

pub data InitError (X : Type 0) : Type 0 where
  failed_resource : X → InitError X
  unsupported_exporter : Bytes → InitError X
  failed_exporter : X → InitError X

-- What the libraries answer: os.Getenv, resource.New and otlptrace.New.
pub record Surroundings (X : Type 0) : Type 0 where
  pub getenv : Bytes → Bytes
  pub resource_error : Option X
  pub exporter_error : Bytes → Option X

module _ {X : Type 0} (out : Surroundings X) where
  unfoldable pub get_service_name : Bytes → Bytes
  get_service_name config_name =
      if is_nil config_name
      then if is_nil (out.getenv (codes "OTEL_SERVICE_NAME"))
        then service_name
        else out.getenv (codes "OTEL_SERVICE_NAME")
      else config_name

  unfoldable pub get_environment : Bytes → Bytes
  get_environment config_env =
      if is_nil config_env
      then if is_nil (out.getenv (codes "ENVIRONMENT"))
        then codes "development"
        else out.getenv (codes "ENVIRONMENT")
      else config_env

  -- The endpoint of the exporter.
  unfoldable pub create_otlp_exporter : Bytes → Result X Bytes
  create_otlp_exporter endpoint =
      let address = if is_nil endpoint then codes "localhost:4317" else endpoint in
      elim (out.exporter_error address) [ none ↦ ok address | some e ↦ err e ]

  unfoldable pub create_jaeger_exporter : Bytes → Result X Bytes
  unfolding create_otlp_exporter
  create_jaeger_exporter endpoint = create_otlp_exporter endpoint

  -- The switch on the exporter; `none` is its default.
  unfoldable pub create_exporter : TracingConfig → Option (Result X Bytes)
  unfolding create_otlp_exporter create_jaeger_exporter
  create_exporter config =
      if str_eq config.exporter (codes "jaeger")
      then some (create_jaeger_exporter config.endpoint)
      else if str_eq config.exporter (codes "otlp")
      then some (create_otlp_exporter config.endpoint)
      else none

  unfoldable pub provider_at : TracingConfig → Bytes → Provider
  unfolding get_service_name get_environment
  provider_at config address = Provider.exporting (record {
    service = get_service_name config.service_name;
    version = service_version;
    environment = get_environment config.environment;
    component = codes "jit-bot";
    endpoint = address;
    rate = if ltb_ℤ (pos 0) config.sample_rate then config.sample_rate else pos 100;
  })

  -- The provider that is made, before it is installed.
  unfoldable pub make_provider : TracingConfig → Result (InitError X) Provider
  make_provider config = elim out.resource_error [
    | some e ↦ err (failed_resource e)
    | none ↦ elim (create_exporter config) [
      | none ↦ err (unsupported_exporter config.exporter)
      | some (err e) ↦ err (failed_exporter e)
      | some (ok address) ↦ ok (provider_at config address)
    ]
  ]

  unfoldable pub init_tracing :
      {E S : Type 0} → TracingConfig → Run E S (Result (InitError X) Provider)
  unfolding make_provider
  init_tracing config w =
      if config.enabled
      then elim (make_provider config) [
        | err e ↦ done (err e) w
        | ok provider ↦ done (ok provider) (record w { tracer = some provider; propagates = true })
      ]
      else done (ok Provider.no_op) (record w { tracer = some Provider.no_op })
