-- ===== src/Operator.antt =====
-- cmd/operator/main.go, with pkg/webhook/server.go: how the operator starts its parts, and how it ends.
-- Each part that a library makes answers with an error or not.
pub mod Finished
use jit_bot.Base.{
  ℕ, ◌+◌, Bool, true, false, List, [], ◌∷◌, Option, none, some, Bytes, codes, str_eq, if◌then◌else◌,
}
use jit_bot.Base.Int.{ℤ, pos}
use jit_bot.Base.Result.{Result, ok, err}
use jit_bot.Webhook.Duration.{is_nil}
use jit_bot.Auth.{Rbac, new_rbac}
use jit_bot.Observe.Run.{Process, Run, Outcome, done, pure, ◌>>=◌}
use jit_bot.Observe.Tracing.{InitError, Surroundings}
use jit_bot.Observe.Monitor.{MonitorConfig, Monitor, Part, new_monitor, start_monitor, stop_monitor}

-- The variables that the command line sets.
pub record OperatorFlags : Type 0 where
  pub metrics_addr : Bytes
  pub probe_addr : Bytes
  pub enable_leader_election : Bool
  pub aws_region : Bytes
  pub webhook_port : ℕ
  pub cert_dir : Bytes
  pub enable_tracing : Bool
  pub tracing_exporter : Bytes
  pub tracing_endpoint : Bytes

abbrev pub flag_defaults : OperatorFlags
flag_defaults = record {
  metrics_addr = codes ":8080";
  probe_addr = codes ":8081";
  enable_leader_election = false;
  aws_region = [];
  webhook_port = 9443;
  cert_dir = [];
  enable_tracing = false;
  tracing_exporter = codes "jaeger";
  tracing_endpoint = [];
}

unfoldable pub get_environment : (Bytes → Bytes) → Bytes
get_environment getenv =
    if is_nil (getenv (codes "ENVIRONMENT"))
    then if is_nil (getenv (codes "GO_ENV")) then codes "development" else getenv (codes "GO_ENV")
    else getenv (codes "ENVIRONMENT")

-- The rate in thousandths.
unfoldable pub get_sample_rate : (Bytes → Bytes) → ℤ
unfolding get_environment
get_sample_rate getenv =
    if str_eq (get_environment getenv) (codes "production")
    then pos 10
    else if str_eq (get_environment getenv) (codes "staging")
    then pos 50
    else pos 100

unfoldable pub monitoring_config : OperatorFlags → (Bytes → Bytes) → MonitorConfig
unfolding get_environment get_sample_rate
monitoring_config flags getenv = record {
  metrics_enabled = true;
  metrics_port = 8080;
  health_port = 8081;
  tracing = record {
    enabled = flags.enable_tracing;
    exporter = flags.tracing_exporter;
    endpoint = flags.tracing_endpoint;
    service_name = codes "jit-operator";
    environment = get_environment getenv;
    sample_rate = get_sample_rate getenv;
  };
}

-- What the manager is configured with, besides the scheme.
pub record ManagerOptions : Type 0 where
  pub leader_election : Bool
  pub leader_election_id : Bytes
  pub webhook_port : ℕ
  pub cert_dir : Bytes

unfoldable pub webhook_opts : OperatorFlags → ManagerOptions
webhook_opts flags = record {
  leader_election = flags.enable_leader_election;
  leader_election_id = codes "jit-operator.rebelops.io";
  webhook_port = flags.webhook_port;
  cert_dir = flags.cert_dir;
}

unfoldable pub chosen_region : OperatorFlags → (Bytes → Bytes) → Bytes
chosen_region flags getenv =
    if is_nil flags.aws_region
    then if is_nil (getenv (codes "AWS_REGION"))
      then codes "us-east-1"
      else getenv (codes "AWS_REGION")
    else flags.aws_region

-- The table of roles of the request reconciler.
abbrev pub operator_rbac : Rbac
operator_rbac = new_rbac []

pub data Handler : Type 0 where
  request_validator request_mutator job_mutator : Handler

-- What SetupWebhookWithManager registers; it returns nil.
unfoldable pub webhook_handlers : List (Bytes × Handler)
webhook_handlers =
    (codes "/validate-jit-rebelops-io-v1alpha1-jitaccessrequest", request_validator)
    ∷ (codes "/mutate-jit-rebelops-io-v1alpha1-jitaccessrequest", request_mutator)
    ∷ (codes "/mutate-jit-rebelops-io-v1alpha1-jitaccessjob", job_mutator)
    ∷ []

-- The steps of main behind the manager.
pub data Stage : Type 0 where
  access_manager : Bytes → Stage
  request_controller job_controller webhooks healthz_check readyz_check start_manager : Stage

unfoldable pub stages : OperatorFlags → (Bytes → Bytes) → List Stage
unfolding chosen_region
stages flags getenv =
    access_manager (chosen_region flags getenv)
    ∷ request_controller
    ∷ job_controller
    ∷ webhooks
    ∷ healthz_check
    ∷ readyz_check
    ∷ start_manager
    ∷ []

-- The answer of a step. SetupWebhookWithManager returns nil.
unfoldable pub stage_answer : {X : Type 0} → (Stage → Option X) → Stage → Option X
stage_answer answers webhooks = none
stage_answer answers stage = answers stage

-- The steps that are tried: main returns at the first error.
unfoldable pub run_stages : {X : Type 0} → (Stage → Option X) → List Stage → List Stage
unfolding stage_answer
run_stages answers [] = []
run_stages answers (stage ∷ rest) =
    stage ∷ elim (stage_answer answers stage) [ none ↦ run_stages answers rest | some e ↦ [] ]

-- How the process ends: its status, the steps that were tried, and what Stop of the monitor shut down
-- and reported, where it was called.
pub record Ending (X : Type 0) : Type 0 where
  pub status : ℕ
  pub tried : List Stage
  pub stopped : Option (List Part × List (Part × X))

pub record OperatorAnswers (X : Type 0) : Type 0 where
  pub surroundings : Surroundings X
  -- of GetConfigOrDie, which ends the process with status 1
  pub config_error : Option X
  pub manager_error : ManagerOptions → Option X
  pub stage_error : Stage → Option X
  pub shutdown_error : Part → Option X

module _ {X : Type 0} (answers : OperatorAnswers X) (flags : OperatorFlags) where
  -- main behind the creation of the manager, by its error.
  unfoldable pub with_manager : Option X → Monitor → Ending X
  with_manager (some e) m = record { status = 0; tried = []; stopped = none }
  with_manager none m = record {
    status = 0;
    tried = run_stages answers.stage_error (stages flags answers.surroundings.getenv);
    stopped = some (stop_monitor answers.shutdown_error m);
  }

  -- main behind a monitor that has been started.
  unfoldable pub with_monitor : Monitor → Ending X
  unfolding with_manager webhook_opts
  with_monitor m = with_manager (answers.manager_error (webhook_opts flags)) m

  unfoldable pub after_start : Result (InitError X) Monitor → Ending X
  unfolding with_monitor
  after_start (err e) = record { status = 1; tried = []; stopped = none }
  after_start (ok m) = elim answers.config_error [
    | some e ↦ record { status = 1; tried = []; stopped = none }
    | none ↦ with_monitor m
  ]

  unfoldable pub operator_main : {E S : Type 0} → Run E S (Ending X)
  unfolding monitoring_config after_start
  operator_main =
      start_monitor answers.surroundings
        (new_monitor (monitoring_config flags answers.surroundings.getenv))
      >>= λ started. pure (after_start started)
