-- ===== src/Tests/Settings.antt =====
-- A configuration that viper reads from two settings.
use jit_bot.Base.{◌≡◌, refl, true, [], ◌∷◌, Option, none, some, Bytes, codes, str_eq}
use jit_bot.Base.Text.{bytes_eq}
use jit_bot.Base.Map.{lookup}
use jit_bot.Base.Int.{pos}
use jit_bot.Base.Result.{ok}
use jit_bot.Config.{Config, set_defaults, validate, load_from_viper}

abbrev or_empty : Option Bytes → Bytes
or_empty none = []
or_empty (some s) = s

-- The texts that a view of the settings names, and fixed values elsewhere.
abbrev pub read_texts : (Bytes → Option Bytes) → Option Config
read_texts view = some (record {
  server = record {
    port = or_empty (view (codes "server.port"));
    read_timeout = pos 15;
    write_timeout = pos 15;
    idle_timeout = pos 60;
  };
  slack = record {
    token = or_empty (view (codes "slack.token"));
    signing_secret = or_empty (view (codes "slack.signingSecret"));
  };
  aws = record {
    region = or_empty (view (codes "aws.region"));
    account_ids = [];
    saml_provider_arn = [];
    eks_cluster_prefix = [];
  };
  access = record { max_duration = pos 3600; approval_required = true };
  log = record { level = codes "info"; format = codes "json" };
  auth = record { admin_users = []; approvers = [] };
})

abbrev pub two_settings : Bytes → Option Bytes
two_settings key =
    lookup key
      ((codes "slack.token", codes "xoxb") ∷ (codes "slack.signingSecret", codes "s3cret") ∷ [])

abbrev pub expected : Config
expected = record {
  server = record {
    port = codes "8080";
    read_timeout = pos 15;
    write_timeout = pos 15;
    idle_timeout = pos 60;
  };
  slack = record { token = codes "xoxb"; signing_secret = codes "s3cret" };
  aws = record {
    region = codes "us-east-1";
    account_ids = [];
    saml_provider_arn = [];
    eks_cluster_prefix = [];
  };
  access = record { max_duration = pos 3600; approval_required = true };
  log = record { level = codes "info"; format = codes "json" };
  auth = record { admin_users = []; approvers = [] };
}

loads : load_from_viper read_texts two_settings ≡ ok expected
unfolding load_from_viper set_defaults validate lookup str_eq
loads = refl
