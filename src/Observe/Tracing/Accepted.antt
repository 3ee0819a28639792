-- ===== src/Observe/Tracing/Accepted.antt =====
-- Which configurations InitTracing of pkg/telemetry/tracing.go accepts.
use jit_bot.Base.{
  ◌≡◌, ◌↔◌, ◌⊎◌, inl, inr, refl, sym, ◌∙◌, none, some, Bytes, codes, str_eq, str_eq_iff, Bool-cases,
  Option-cases, if◌then◌else◌, ap, arith, true, false,
}
use jit_bot.Base.Result.{Result, ok, Result-cases}
use jit_bot.Webhook.Duration.{is_nil}
use jit_bot.Observe.Run.{Provider, no_op, exporting, Process, done}
use jit_bot.Base.Int.{pos, ltb_ℤ}
use jit_bot.Observe.Tracing.{
  TracingConfig, Surroundings, create_otlp_exporter, create_jaeger_exporter, create_exporter,
  provider_at, make_provider, init_tracing, get_service_name, get_environment,
}

-- The endpoint that is dialled.
abbrev pub address_of : TracingConfig → Bytes
address_of config = if is_nil config.endpoint then codes "localhost:4317" else config.endpoint

abbrev pub IsSupported : Bytes → Type 0
IsSupported exporter = (exporter ≡ codes "jaeger") ⊎ (exporter ≡ codes "otlp")

-- The provider of an enabled configuration: the configured service and environment, then those of the
-- process's environment, then jit-bot and development; the rate is in thousandths.
abbrev pub made_provider : {X : Type 0} → Surroundings X → TracingConfig → Provider
made_provider out config = exporting (record {
  service =
      if is_nil config.service_name
      then (if is_nil (out.getenv (codes "OTEL_SERVICE_NAME"))
          then codes "jit-bot"
          else out.getenv (codes "OTEL_SERVICE_NAME"))
      else config.service_name;
  version = codes "1.0.0";
  environment =
      if is_nil config.environment
      then (if is_nil (out.getenv (codes "ENVIRONMENT"))
          then codes "development"
          else out.getenv (codes "ENVIRONMENT"))
      else config.environment;
  component = codes "jit-bot";
  endpoint = address_of config;
  rate = if ltb_ℤ (pos 0) config.sample_rate then config.sample_rate else pos 100;
})

-- What a successful start leaves: without tracing the no-op provider, else that of the configuration.
abbrev pub IsInitialised :
    {X E S : Type 0}
    → Surroundings X
    → TracingConfig
    → Provider
    → Process E S
    → Process E S
    → Type 0
IsInitialised out config p w w' =
    ((config.enabled ≡ false) × (p ≡ no_op) × (w' ≡ record w { tracer = some no_op }))
    ⊎ ((config.enabled ≡ true)
        × (out.resource_error ≡ none)
        × IsSupported config.exporter
        × (out.exporter_error (address_of config) ≡ none)
        × (p ≡ made_provider out config)
        × (w' ≡ record w { tracer = some p; propagates = true }))

module _ {X : Type 0} (out : Surroundings X) (config : TracingConfig) where
  supported :
      IsSupported config.exporter
      → create_exporter out config ≡ some (create_otlp_exporter out config.endpoint)
  unfolding create_exporter create_jaeger_exporter str_eq
  supported (inl j) = rw j refl
  supported (inr o) = rw o refl

  create_exporter-IsSupported :
      (answer : Result X Bytes)
      → create_exporter out config ≡ some answer
      → IsSupported config.exporter × (answer ≡ create_otlp_exporter out config.endpoint)
  unfolding create_exporter
  create_exporter-IsSupported answer h =
      elim (Bool-cases (str_eq config.exporter (codes "jaeger"))) [
        | inl j ↦
            let named = (str_eq_iff config.exporter (codes "jaeger")).0 j in
            (inl named, cc (h, supported (inl named)))
        | inr nj ↦ elim (Bool-cases (str_eq config.exporter (codes "otlp"))) [
          | inl o ↦
              let named = (str_eq_iff config.exporter (codes "otlp")).0 o in
              (inr named, cc (h, supported (inr named)))
          | inr no_otlp ↦ absurd (cc (rw (nj, no_otlp, create_exporter) at h))
        ]
      ]

  otlp_ok :
      (address : Bytes)
      → create_otlp_exporter out config.endpoint ≡ ok address
      → (out.exporter_error (address_of config) ≡ none) × (address ≡ address_of config)
  unfolding create_otlp_exporter
  otlp_ok address h = elim (Option-cases (out.exporter_error (address_of config))) [
    | inl e ↦ (e, cc (rw (e, create_otlp_exporter) at h))
    | inr (x, e) ↦ absurd (cc (rw (e, create_otlp_exporter) at h))
  ]

  otlp_makes :
      out.exporter_error (address_of config) ≡ none
      → create_otlp_exporter out config.endpoint ≡ ok (address_of config)
  unfolding create_otlp_exporter
  otlp_makes e = rw (create_otlp_exporter, e) refl

  -- The switch on the exporter and its answer, behind the resource.
  exporter_ok :
      (p : Provider)
      → out.resource_error ≡ none
      → make_provider out config ≡ ok p
      → (address : Bytes) × ((create_exporter out config ≡ some (ok address))
          × (p ≡ provider_at out config address))
  unfolding make_provider
  exporter_ok p r h = elim (Option-cases (create_exporter out config)) [
    | inl e ↦ absurd (cc (rw (r, e, make_provider) at h))
    | inr (answer, e) ↦ elim (Result-cases answer) [
      | inl (address, a) ↦ (address, (e ∙ ap some a, cc (rw (r, e, a, make_provider) at h)))
      | inr (x, a) ↦ absurd (cc (rw (r, e, a, make_provider) at h))
    ]
  ]

  make_provider_iff :
      (p : Provider)
      → (make_provider out config ≡ ok p) ↔ (
          (out.resource_error ≡ none)
          × IsSupported config.exporter
          × (out.exporter_error (address_of config) ≡ none)
          × (p ≡ made_provider out config))
  unfolding make_provider provider_at get_service_name get_environment
  make_provider_iff p = (made, makes)
    where
      made :
          make_provider out config ≡ ok p
          → (out.resource_error ≡ none)
            × IsSupported config.exporter
            × (out.exporter_error (address_of config) ≡ none)
            × (p ≡ made_provider out config)
      made h = elim (Option-cases out.resource_error) [
        | inr (x, r) ↦ absurd (cc (rw (r, make_provider) at h))
        | inl r ↦
            let (address, (e, q)) = exporter_ok p r h in
            let (named, same) = create_exporter-IsSupported (ok address) e in
            let (fine, at) = otlp_ok address (sym same) in
            (r, named, fine, q ∙ ap (provider_at out config) at)
      ]

      makes :
          ((out.resource_error ≡ none)
            × IsSupported config.exporter
            × (out.exporter_error (address_of config) ≡ none)
            × (p ≡ made_provider out config))
          → make_provider out config ≡ ok p
      makes (r, named, fine, q) = ground (arith, supported named, otlp_makes fine)

  init_tracing-IsInitialised :
      {E S : Type 0} (p : Provider) (w w' : Process E S)
      → init_tracing out config w ≡ done (ok p) w'
      → IsInitialised out config p w w'
  unfolding init_tracing
  init_tracing-IsInitialised p w w' h = elim (Bool-cases config.enabled) [
    | inr off ↦ inl (off, cc (rw (off, init_tracing) at h), cc (rw (off, init_tracing) at h))
    | inl on ↦ elim (Result-cases (make_provider out config)) [
      | inr (x, e) ↦ absurd (cc (rw (on, e, init_tracing) at h))
      | inl (q, e) ↦
          let same : q ≡ p = cc (rw (on, e, init_tracing) at h) in
          let (r, named, fine, made) = (make_provider_iff p).0 (e ∙ ap ok same) in
          let left : w' ≡ record w { tracer = some q; propagates = true } =
            cc (rw (on, e, init_tracing) at h) in
          inr (on, r, named, fine, made, rw same at left)
    ]
  ]

  IsInitialised-init_tracing :
      {E S : Type 0} (p : Provider) (w w' : Process E S)
      → IsInitialised out config p w w'
      → init_tracing out config w ≡ done (ok p) w'
  unfolding init_tracing
  IsInitialised-init_tracing p w w' (inl (off, q, left)) = rw (off, init_tracing, q, left) refl
  IsInitialised-init_tracing p w w' (inr (on, r, named, fine, q, left)) =
      rw (on, init_tracing, (make_provider_iff p).1 (r, named, fine, q), left) refl

-- InitTracing returns a provider and leaves the process in a given state exactly if tracing is not
-- enabled, the provider is the no-op one and the process traces with it, or tracing is enabled, the
-- resource can be made, the exporter is named jaeger or otlp, and the exporter for the endpoint, by default
-- localhost:4317, can be made; the provider is then that of the endpoint with the configured service and
-- environment, or else those of the surroundings, or else jit-bot and development, and with the positive
-- configured rate or else 100, and the process traces and propagates with it.
pub init_tracing_iff :
    {X E S : Type 0} (out : Surroundings X) (config : TracingConfig) (p : Provider)
    (w w' : Process E S)
    → (init_tracing out config w ≡ done (ok p) w') ↔ IsInitialised out config p w w'
init_tracing_iff out config p w w' =
    (init_tracing-IsInitialised out config p w w', IsInitialised-init_tracing out config p w w')
