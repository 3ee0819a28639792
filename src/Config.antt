-- ===== src/Config.antt =====
-- internal/config/config.go: the configuration of the server. What viper has read is a function from
-- keys to texts (`none` where a key is not set), and its Unmarshal, which applies the defaults that the
-- program sets, is a parameter.
pub mod Loaded
use jit_bot.Base.{Bool, true, false, List, [], ◌∷◌, Option, none, some, Bytes, codes, if◌then◌else◌}
use jit_bot.Base.Text.{bytes_eq}
use jit_bot.Base.Map.{lookup}
use jit_bot.Base.Int.{ℤ}
use jit_bot.Base.Result.{Result, ok, err}
use jit_bot.Webhook.Duration.{is_nil}

pub record ServerConfig : Type 0 where
  pub port : Bytes
  pub read_timeout : ℤ
  pub write_timeout : ℤ
  pub idle_timeout : ℤ

pub record SlackConfig : Type 0 where
  pub token : Bytes
  pub signing_secret : Bytes

pub record AwsConfig : Type 0 where
  pub region : Bytes
  pub account_ids : List Bytes
  pub saml_provider_arn : Bytes
  pub eks_cluster_prefix : Bytes

pub record AccessConfig : Type 0 where
  pub max_duration : ℤ
  pub approval_required : Bool

pub record LogConfig : Type 0 where
  pub level : Bytes
  pub format : Bytes

pub record AuthConfig : Type 0 where
  pub admin_users : List Bytes
  pub approvers : List Bytes

pub record Config : Type 0 where
  pub server : ServerConfig
  pub slack : SlackConfig
  pub aws : AwsConfig
  pub access : AccessConfig
  pub log : LogConfig
  pub auth : AuthConfig

pub data ConfigError : Type 0 where
  not_unmarshalled missing_token missing_secret missing_port : ConfigError

-- What setDefaults tells viper; a Boolean is its text.
abbrev pub defaults : List (Bytes × Bytes)
defaults =
    (codes "server.port", codes "8080")
    ∷ (codes "server.readTimeout", codes "15s")
    ∷ (codes "server.writeTimeout", codes "15s")
    ∷ (codes "server.idleTimeout", codes "60s")
    ∷ (codes "aws.region", codes "us-east-1")
    ∷ (codes "access.maxDuration", codes "1h")
    ∷ (codes "access.approvalRequired", codes "true")
    ∷ (codes "log.level", codes "info")
    ∷ (codes "log.format", codes "json")
    ∷ []

abbrev or_default : Option Bytes → Bytes → Option Bytes
or_default (some value) key = some value
or_default none key = lookup key defaults

-- The settings with the defaults.
unfoldable pub set_defaults : (Bytes → Option Bytes) → Bytes → Option Bytes
set_defaults settings key = or_default (settings key) key

-- `none` is nil.
unfoldable pub validate : Config → Option ConfigError
validate cfg =
    if is_nil cfg.slack.token
    then some missing_token
    else if is_nil cfg.slack.signing_secret
    then some missing_secret
    else if is_nil cfg.server.port
    then some missing_port
    else none

abbrev checked : Config → Option ConfigError → Result ConfigError Config
checked cfg none = ok cfg
checked cfg (some e) = err e

unfoldable pub load_from_viper :
    ((Bytes → Option Bytes) → Option Config) → (Bytes → Option Bytes) → Result ConfigError Config
load_from_viper unmarshal settings = elim (unmarshal (set_defaults settings)) [
  | none ↦ err not_unmarshalled
  | some cfg ↦ checked cfg (validate cfg)
]

abbrev pub port : Config → Bytes
port cfg = cfg.server.port

abbrev pub slack_token : Config → Bytes
slack_token cfg = cfg.slack.token

abbrev pub slack_signing_secret : Config → Bytes
slack_signing_secret cfg = cfg.slack.signing_secret
