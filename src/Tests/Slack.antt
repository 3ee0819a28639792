-- ===== src/Tests/Slack.antt =====
-- Commands and signed requests of Slack.
use jit_bot.Base.{
  ◌≡◌, ◌⊎◌, ◌↔◌, refl, false, List, [], ◌∷◌, ◌++◌, Option, none, some, Bytes, codes, str_eq,
  contains_text, has_prefix,
}
use jit_bot.Base.Map.{lookup_head}
use jit_bot.Base.Int.{pos, wrap64, ◌-ℤ◌}
use jit_bot.Auth.{new_rbac}
use jit_bot.Webhook.Regex.{match_string}
use jit_bot.Controller.Types.{JitAccessRequest, unset, pending, ObjectReference}
use jit_bot.Controller.Kube.{reference_eq}
use jit_bot.Controller.Kube.Memory.{Kube, memory}
use jit_bot.Store.{MemoryStore}
use jit_bot.Slack.{SlackCommand}
use jit_bot.Slack.Commands.{fields, handle_jit_command}
use jit_bot.Slack.Commands.Effect.{IsSubmitted, handle_jit_command-Effect}
use jit_bot.Slack.Middleware.{
  SlackRequest, passed, rejected, too_old, verify_request, verify_body, parse_int64, digits_from,
  age, computed_signature, with_form_user,
}
use jit_bot.Slack.Middleware.Verified.{IsSigned, verify_request_iff}
use jit_bot.Slack.K8s.{default_flags, Flags, new_request}
use jit_bot.Slack.K8s.Teams.{Event, round, command, run_events}
use jit_bot.Slack.K8s.Unmet.{team_approvers_never_met}
use jit_bot.Tests.Tables.{dev_cluster}
use jit_bot.Tests.Rounds.{print, no_faults}

abbrev alice_asks : SlackCommand
alice_asks = record {
  channel_id = codes "C1";
  user_id = codes "U123ABC456D";
  user_name = codes "alice";
  command = codes "/jit";
  text = codes "request dev-1 deploy";
}

abbrev bob_approves : SlackCommand
bob_approves = record alice_asks { user_id = codes "U999ABC456D"; user_name = codes "bob" }

abbrev edit_flags : Flags
edit_flags = record default_flags { permissions = codes "edit" ∷ [] }

abbrev made : JitAccessRequest
made =
    new_request (codes "jit") (pos 1) (codes "1") alice_asks (codes "prod-east-1") (codes "2h")
      (codes "fix") edit_flags

abbrev made_key : ObjectReference
made_key = record { name = codes "jit-U123ABC456D-1"; namespace = codes "jit" }

abbrev holding_made : Kube
holding_made = record { requests = (made_key, made) ∷ []; jobs = []; secrets = [] }

-- A round, an approval by another user, and a second round.
abbrev approved_by_bob : List Event
approved_by_bob =
    round (pos 2) no_faults
    ∷ command (pos 3) bob_approves (codes "jit-U123ABC456D-1" ∷ []) false false
    ∷ round (pos 4) no_faults
    ∷ []

team_approvers_never_met_example :
    (req : JitAccessRequest) × (memory.request_at made_key
        (run_events memory (new_rbac []) print (codes "jit") made_key approved_by_bob holding_made)
      ≡ some req)
    × ((req.status.phase ≡ unset) ⊎ (req.status.phase ≡ pending))
team_approvers_never_met_example =
    team_approvers_never_met memory (new_rbac []) print (codes "jit") made_key (pos 1) (codes "1")
      alice_asks (codes "prod-east-1") (codes "2h") (codes "fix") edit_flags approved_by_bob
      holding_made (unfold contains_text in unfold has_prefix in refl) (unfold str_eq in refl)
      (unfold match_string in refl, tt) (lookup_head made_key made [])

-- A keyed digest that shows what it is given, and forms without a user.
abbrev show_digest : Bytes → Bytes → Bytes
show_digest key message = key ++ message

abbrev no_form : Bytes → Bytes → Option (Bytes → Bytes)
no_form query body = none

abbrev signed_request : SlackRequest
signed_request = record {
  timestamp = codes "1000";
  signature = codes "v0=kv0:1000:hi";
  content_type = codes "application/json";
  user_id = [];
  user_name = [];
  query = [];
  body = some (codes "hi");
}

-- A request of 200 seconds ago, and one of 301 seconds ago.
recent_passes :
    verify_request show_digest no_form (codes "k") (pos 1200) signed_request ≡ passed signed_request
unfolding verify_request verify_body parse_int64 digits_from age computed_signature with_form_user
    str_eq wrap64 ◌-ℤ◌
recent_passes = refl

old_fails :
    verify_request show_digest no_form (codes "k") (pos 1301) signed_request ≡ rejected 401 too_old
unfolding verify_request parse_int64 digits_from age wrap64 ◌-ℤ◌
old_fails = refl

verify_request_iff_example :
    (verify_request show_digest no_form (codes "k") (pos 1200) signed_request
      ≡ passed signed_request)
    ↔ IsSigned show_digest no_form (codes "k") (pos 1200) signed_request signed_request
verify_request_iff_example =
    verify_request_iff show_digest no_form (codes "k") (pos 1200) signed_request signed_request

-- A form parser that answers every key with the query, and a form whose query names a user.
abbrev query_form : Bytes → Bytes → Option (Bytes → Bytes)
query_form query body = some (λ key. query)

abbrev queried : SlackRequest
queried = record signed_request {
  content_type = codes "application/x-www-form-urlencoded";
  query = codes "U123ABC456D";
}

-- The user comes from the query, which is not signed.
query_names_user :
    verify_request show_digest query_form (codes "k") (pos 1200) queried
    ≡ passed (record queried { user_id = codes "U123ABC456D"; user_name = codes "U123ABC456D" })
unfolding verify_request verify_body parse_int64 digits_from age computed_signature with_form_user
    str_eq wrap64 ◌-ℤ◌
query_names_user = refl

abbrev dev_only : MemoryStore
dev_only = record { clusters = (codes "dev-1", dev_cluster) ∷ []; accesses = [] }

handle_jit_command-Effect_example :
    let r = handle_jit_command (new_rbac []) (pos 1) (codes "a1") alice_asks dev_only in
    (r.0 ≡ dev_only)
    ⊎ IsSubmitted
        (new_rbac [])
        (pos 1)
        (codes "a1")
        alice_asks
        (fields (codes "request dev-1 deploy"))
        dev_only
        r.0
        r.1
handle_jit_command-Effect_example =
    handle_jit_command-Effect (new_rbac []) (pos 1) (codes "a1") alice_asks dev_only
