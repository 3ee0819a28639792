-- ===== src/Tests/Admission.antt =====
-- The webhooks on concrete requests.
use jit_bot.Base.{
  ℕ, ◌≡◌, ◌≢◌, ◌↔◌, ◌≤◌, ◌%◌, refl, List, [], ◌∷◌, none, some, Bytes, codes, if◌then◌else◌, All,
}
use jit_bot.Base.Int.{pos}
use jit_bot.Base.Result.{ok}
use jit_bot.Controller.Types.{JitAccessRequest, TargetCluster, unset}
use jit_bot.Webhook.Duration.{
  rebuilt, parse_duration, sum_matches, validate_duration, min_duration, max_duration, mod64,
}
use jit_bot.Webhook.Duration.Format.{IsComponent, parse_duration_iff}
use jit_bot.Webhook.Duration.Accepts.{Fits, exact, validate_duration_iff}
use jit_bot.Webhook.Validation.{handle, allowed, contains}
use jit_bot.Webhook.Validation.Admissible.{handle_iff}
use jit_bot.Webhook.Validation.Rules.{IsAdmissible}
use jit_bot.Webhook.Mutation.{
  mutate, determine_environment, has_elevated_permissions, policy_approvers, not_empty,
}
use jit_bot.Webhook.Mutation.Policy.{KeepsKeys, approvers-mutate}

abbrev pub dev_target : TargetCluster
dev_target = record {
  name = codes "prod-east";
  aws_account = codes "123456789012";
  region = codes "us-east-1";
  endpoint = [];
}

abbrev pub alice_request : JitAccessRequest
alice_request = record {
  meta = record { name = codes "req-1"; namespace = codes "jit"; labels = []; annotations = [] };
  spec = record {
    user_id = codes "U123ABC456D";
    user_email = codes "alice@example.com";
    target_cluster = dev_target;
    reason = codes "look at the logs of the shop";
    duration = codes "2h";
    permissions = codes "view" ∷ [];
    namespaces = codes "shop" ∷ [];
    approvers = [];
    slack_channel = codes "C1";
    requested_at = pos 1;
  };
  status = record {
    phase = unset;
    approvals = [];
    access_entry = none;
    conditions = [];
    message = [];
  };
}

handle_iff_example : (handle (some alice_request) ≡ allowed) ↔ IsAdmissible alice_request.spec
handle_iff_example = handle_iff alice_request

parse_duration_iff_example : (parse_duration (codes "1d2h") ≡ ok 93600000000000) ↔ (
    (ms : List (Bytes × ℕ)) × (ms ≢ [])
    × All IsComponent ms
    × (codes "1d2h" ≡ rebuilt ms)
    × (sum_matches 0 ms ≡ ok 93600000000000))
parse_duration_iff_example = parse_duration_iff (codes "1d2h") 93600000000000

abbrev many_days : List (Bytes × ℕ)
many_days = (codes "213504", b'd') ∷ []

many_days-IsComponent : All IsComponent many_days
many_days-IsComponent = (
  record {
    some_digits = refl;
    all_digits = (refl, (refl, (refl, (refl, (refl, (refl, tt))))));
    unit_known = refl;
  },
  tt,
)

many_days_some : many_days ≢ []
many_days_some e = cc

-- 213504 days are more than 7 days, and their sum wraps to less.
validate_duration_iff_example : (validate_duration (rebuilt many_days) ≡ none) ↔ (
    All Fits many_days
    × (min_duration ≤ exact many_days % mod64)
    × (exact many_days % mod64 ≤ max_duration))
validate_duration_iff_example = validate_duration_iff many_days many_days_some many_days-IsComponent

abbrev spellings : List (Bytes × Bytes)
spellings = (codes "hours", codes "h") ∷ (codes "minutes", codes "m") ∷ []

abbrev as_they_stand : List Bytes → List Bytes
as_they_stand l = l

as_they_stand-KeepsKeys : KeepsKeys as_they_stand
as_they_stand-KeepsKeys xs x = refl

approvers-mutate_example :
    contains
      (mutate as_they_stand spellings (λ t. codes "now") (pos 5) alice_request).spec.approvers
      (codes "sre-team")
    ≡ (if not_empty alice_request.spec.approvers
        then contains alice_request.spec.approvers (codes "sre-team")
        else contains
            (policy_approvers
              (determine_environment dev_target.name)
              (has_elevated_permissions alice_request.spec.permissions))
            (codes "sre-team"))
approvers-mutate_example =
    approvers-mutate as_they_stand spellings (λ t. codes "now") (pos 5) alice_request
      (codes "sre-team") as_they_stand-KeepsKeys
