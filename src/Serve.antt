-- ===== src/Serve.antt =====
-- The command jit-server: cmd/jit-server/cmd/root.go and serve.go, and internal/server/server.go. What
-- cobra and viper do with the tables, and the HTTP server, are parameters.
pub mod Listening
use jit_bot.Base.{
  ℕ, Bool, true, false, List, [], ◌∷◌, ◌++◌, Option, none, some, Bytes, codes, if◌then◌else◌,
}
use jit_bot.Base.Int.{ℤ, pos}
use jit_bot.Base.Result.{Result, ok, err}
use jit_bot.Webhook.Duration.{is_nil}
use jit_bot.Config.{Config, ConfigError, load_from_viper}

pub data FlagDefault : Type 0 where
  text : Bytes → FlagDefault
  texts : List Bytes → FlagDefault
  number : ℕ → FlagDefault
  truth : Bool → FlagDefault

-- The flags of serve with their defaults.
abbrev pub serve_flags : List (Bytes × FlagDefault)
serve_flags =
    (codes "port", text (codes "8080"))
    ∷ (codes "slack-token", text [])
    ∷ (codes "slack-signing-secret", text [])
    ∷ (codes "aws-region", text (codes "us-east-1"))
    ∷ (codes "aws-account-ids", texts [])
    ∷ (codes "saml-provider-arn", text [])
    ∷ (codes "eks-cluster-prefix", text [])
    ∷ (codes "max-access-duration", number 3600)
    ∷ (codes "approval-required", truth true)
    ∷ []

-- The keys of viper and the flags that are bound to them.
abbrev pub flag_bindings : List (Bytes × Bytes)
flag_bindings =
    (codes "server.port", codes "port")
    ∷ (codes "slack.token", codes "slack-token")
    ∷ (codes "slack.signingSecret", codes "slack-signing-secret")
    ∷ (codes "aws.region", codes "aws-region")
    ∷ (codes "aws.accountIds", codes "aws-account-ids")
    ∷ (codes "aws.samlProviderArn", codes "saml-provider-arn")
    ∷ (codes "aws.eksClusterPrefix", codes "eks-cluster-prefix")
    ∷ (codes "access.maxDuration", codes "max-access-duration")
    ∷ (codes "access.approvalRequired", codes "approval-required")
    ∷ []

-- Where initConfig lets viper look for the configuration: a file, or a name in directories.
pub data ConfigSource : Type 0 where
  in_file : Bytes → ConfigSource
  in_paths : List Bytes → Bytes → ConfigSource

-- `home` is the answer for the user's directory; on its error the process exits with 1.
unfoldable pub config_source : {X : Type 0} → Bytes → Result X Bytes → Result X ConfigSource
config_source cfg_file home =
    if is_nil cfg_file
    then elim home [
      | err e ↦ err e
      | ok directory ↦
          ok (in_paths (codes "/etc/jit-server" ∷ directory ∷ codes "." ∷ []) (codes ".jit-server"))
    ]
    else ok (in_file cfg_file)

-- server.Server: the configuration and the handler that NewRouter makes.
pub record JitServer (H : Type 0) : Type 0 where
  pub config : Config
  pub handler : H

unfoldable pub new_server : {X H : Type 0} → (Config → Result X H) → Config → Result X (JitServer H)
new_server new_router cfg = elim (new_router cfg) [
  | err e ↦ err e
  | ok handler ↦ ok (record { config = cfg; handler = handler })
]

pub record HttpServer (H : Type 0) : Type 0 where
  pub addr : Bytes
  pub handler : H
  pub read_timeout : ℤ
  pub write_timeout : ℤ
  pub idle_timeout : ℤ

unfoldable pub http_server : {H : Type 0} → JitServer H → HttpServer H
http_server s = record {
  addr = codes ":" ++ s.config.server.port;
  handler = s.handler;
  read_timeout = s.config.server.read_timeout;
  write_timeout = s.config.server.write_timeout;
  idle_timeout = s.config.server.idle_timeout;
}

-- What happens while Run waits: the context is done (with the error of Shutdown, if any), or
-- ListenAndServe returns, because the server was closed or with another error.
pub data RunEvent (X : Type 0) : Type 0 where
  cancelled : Option X → RunEvent X
  closed : RunEvent X
  failed : X → RunEvent X

-- The select of Run over the events in their order: what Run returns (none inside is nil), or none
-- while it waits. ErrServerClosed sends nothing.
unfoldable pub run_server : {X : Type 0} → List (RunEvent X) → Option (Option X)
run_server [] = none
run_server (cancelled shutdown ∷ events) = some shutdown
run_server (closed ∷ events) = run_server events
run_server (failed e ∷ events) = some (some e)

pub data ServeError (X : Type 0) : Type 0 where
  config_error : ConfigError → ServeError X
  server_error : X → ServeError X

-- runServe up to Run: the HTTP server that is going to listen.
unfoldable pub run_serve :
    {X H : Type 0}
    → ((Bytes → Option Bytes) → Option Config)
    → (Bytes → Option Bytes)
    → (Config → Result X H)
    → Result (ServeError X) (HttpServer H)
unfolding new_server http_server
run_serve unmarshal settings new_router = elim (load_from_viper unmarshal settings) [
  | err e ↦ err (config_error e)
  | ok cfg ↦ elim (new_server new_router cfg) [
    | err e ↦ err (server_error e)
    | ok s ↦ ok (http_server s)
  ]
]
