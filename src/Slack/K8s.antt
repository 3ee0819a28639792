-- ===== src/Slack/K8s.antt =====
-- pkg/slack/k8s_handler.go: commands that create and approve JITAccessRequests through the client.
-- `unix` is the text of the seconds since 1970, and the listing of requests (by namespace and by
-- the label of a user) is the server's answer. A message is named for its text.
pub mod Teams
pub mod Given
pub mod Unmet
use jit_bot.Base.{
  ℕ, Bool, true, false, ◌||◌, List, [], ◌∷◌, ◌++◌, Option, none, some, Bytes, codes, join,
  contains_text, str_eq, if◌then◌else◌,
}
use jit_bot.Base.Text.{bytes_eq}
use jit_bot.Base.Map.{lookup}
use jit_bot.Base.Int.{ℤ}
use jit_bot.Base.Result.{Result, ok, err}
use jit_bot.Auth.{Rbac, create_requests, approve_requests, user_has_permission}
use jit_bot.Access.{split}
use jit_bot.Controller.Types.{
  TargetCluster, JitAccessRequest, Approval, AccessPhase, unset, ObjectReference,
}
use jit_bot.Controller.Kube.{
  ApiServer, ApiError, create_request, get_request, update_request_status, refused,
}
use jit_bot.Slack.{SlackCommand}

pub data K8sMessage : Type 0 where
  may_not_create may_not_approve request_usage approve_usage no_requests : K8sMessage
  not_found : Bytes → K8sMessage
  created : Bytes → Bytes → Bytes → Bytes → K8sMessage
  approved_by : Bytes → Bytes → K8sMessage
  requests_shown : List JitAccessRequest → K8sMessage

abbrev pub or_text : Bytes → Option Bytes → Bytes
or_text default none = default
or_text default (some s) = s

abbrev pub cluster_accounts : List (Bytes × Bytes)
cluster_accounts =
    (codes "prod-east-1", codes "123456789012")
    ∷ (codes "staging-east-1", codes "123456789012")
    ∷ (codes "dev-west-2", codes "987654321098")
    ∷ []

abbrev pub cluster_regions : List (Bytes × Bytes)
cluster_regions =
    (codes "prod-east-1", codes "us-east-1")
    ∷ (codes "staging-east-1", codes "us-east-1")
    ∷ (codes "dev-west-2", codes "us-west-2")
    ∷ []

unfoldable pub get_cluster_account : Bytes → Bytes
get_cluster_account name = or_text (codes "123456789012") (lookup name cluster_accounts)

unfoldable pub get_cluster_region : Bytes → Bytes
get_cluster_region name = or_text (codes "us-east-1") (lookup name cluster_regions)

-- The loop over the permissions.
unfoldable pub asks_elevated : List Bytes → Bool
asks_elevated [] = false
asks_elevated (p ∷ ps) =
    str_eq p (codes "admin") || str_eq p (codes "cluster-admin") || asks_elevated ps

unfoldable pub get_required_approvers : Bytes → List Bytes → List Bytes
get_required_approvers cluster permissions =
    if contains_text (codes "prod") cluster
    then codes "platform-team" ∷ codes "sre-team" ∷ []
    else if asks_elevated permissions
    then codes "platform-team" ∷ []
    else []

-- What the flags of a request set.
pub record Flags : Type 0 where
  pub permissions : List Bytes
  pub namespaces : List Bytes

abbrev pub set_flag : Bytes → Bytes → Flags → Flags
set_flag arg value f =
    if str_eq arg (codes "--permissions")
    then record f { permissions = split b',' [] value }
    else if str_eq arg (codes "--namespaces")
    then record f { namespaces = split b',' [] value }
    else f

-- The loop over the arguments: a flag takes the argument behind it, which is then read as well.
unfoldable pub scan_flags : List Bytes → Flags → Flags
scan_flags [] f = f
scan_flags (arg ∷ []) f = f
scan_flags (arg ∷ value ∷ rest) f = scan_flags (value ∷ rest) (set_flag arg value f)

abbrev pub default_flags : Flags
default_flags = record { permissions = codes "view" ∷ []; namespaces = [] }

-- The request that HandleRequestCommand creates.
unfoldable pub new_request :
    Bytes → ℤ → Bytes → SlackCommand → Bytes → Bytes → Bytes → Flags → JitAccessRequest
new_request namespace now unix cmd cluster duration reason flags = record {
  meta = record {
    name = codes "jit-" ++ (cmd.user_id ++ (codes "-" ++ unix));
    namespace = namespace;
    labels =
        (codes "jit.rebelops.io/user", cmd.user_id)
        ∷ (codes "jit.rebelops.io/cluster", cluster)
        ∷ (codes "jit.rebelops.io/channel", cmd.channel_id)
        ∷ [];
    annotations = [];
  };
  spec = record {
    user_id = cmd.user_id;
    user_email = cmd.user_name ++ codes "@company.com";
    target_cluster = record {
      name = cluster;
      aws_account = get_cluster_account cluster;
      region = get_cluster_region cluster;
      endpoint = [];
    };
    reason = reason;
    duration = duration;
    permissions = flags.permissions;
    namespaces = flags.namespaces;
    approvers = get_required_approvers cluster flags.permissions;
    slack_channel = cmd.channel_id;
    requested_at = now;
  };
  status = record {
    phase = unset;
    approvals = [];
    access_entry = none;
    conditions = [];
    message = [];
  };
}

-- The request with one more approval.
abbrev pub with_approval : Approval → JitAccessRequest → JitAccessRequest
with_approval approval req = record req {
  status = record (req.status) { approvals = req.status.approvals ++ approval ∷ [] };
}

module _ (api : ApiServer) where
  open api use {State}

  -- The objects, the response (none is nil) and the error (none is nil).
  pub record K8sReply : Type 0 where
    pub kube : State
    pub message : Option K8sMessage
    pub error : Option ApiError

  abbrev pub says : State → K8sMessage → K8sReply
  says k m = record { kube = k; message = some m; error = none }

  abbrev pub fails : State → ApiError → K8sReply
  fails k e = record { kube = k; message = none; error = some e }

module _ (api : ApiServer) (rbac : Rbac) (namespace : Bytes) (now : ℤ) (cmd : SlackCommand) where
  open api use {State}

  -- HandleRequestCommand behind its checks.
  unfoldable pub make_request :
      Bool → Bytes → Bytes → Bytes → Bytes → List Bytes → List Bytes → State → K8sReply api
  make_request refuses unix cluster duration word words args k =
      let reason = join (word ∷ words) (codes " ") in
      let req =
        new_request namespace now unix cmd cluster duration reason
          (scan_flags args default_flags) in
      elim (create_request api refuses req k) [
        | err e ↦ fails api k e
        | ok k' ↦ says api k' (created req.meta.name cluster duration reason)
      ]

  abbrev pub request_args : Bool → Bytes → List Bytes → State → K8sReply api
  unfolding make_request
  request_args refuses unix (cluster ∷ duration ∷ word ∷ words) k =
      make_request refuses unix cluster duration word words (cluster ∷ duration ∷ word ∷ words) k
  request_args refuses unix _ k = says api k request_usage

  unfoldable pub handle_request_command : Bool → Bytes → List Bytes → State → K8sReply api
  handle_request_command refuses unix args k =
      if user_has_permission rbac cmd.user_id create_requests
      then request_args refuses unix args k
      else says api k may_not_create

  -- HandleApproveCommand behind its checks.
  unfoldable pub add_approval : Bool → Bool → Bytes → Bytes → State → K8sReply api
  add_approval refuses_get refuses_update name comment k =
      let key : ObjectReference = record { name = name; namespace = namespace } in
      let approval : Approval = record {
        approver = cmd.user_id;
        approved_at = now;
        comment = comment;
      } in
      elim (get_request api refuses_get key k) [
        | err e ↦ record { kube = k; message = some (not_found name); error = some e }
        | ok req ↦
            elim (update_request_status api refuses_update key (with_approval approval req) k) [
              | err e ↦ fails api k e
              | ok k' ↦ says api k' (approved_by name cmd.user_id)
            ]
      ]

  abbrev pub approve_args : Bool → Bool → List Bytes → State → K8sReply api
  unfolding add_approval
  approve_args refuses_get refuses_update [] k = says api k approve_usage
  approve_args refuses_get refuses_update (name ∷ words) k =
      add_approval refuses_get refuses_update name (join words (codes " ")) k

  unfoldable pub handle_approve_command : Bool → Bool → List Bytes → State → K8sReply api
  handle_approve_command refuses_get refuses_update args k =
      if user_has_permission rbac cmd.user_id approve_requests
      then approve_args refuses_get refuses_update args k
      else says api k may_not_approve

  abbrev pub is_mine : List Bytes → Bool
  is_mine [] = false
  is_mine (arg ∷ args) = str_eq arg (codes "mine")

  abbrev shown : State → List JitAccessRequest → K8sReply api
  shown k [] = says api k no_requests
  shown k (r ∷ rest) = says api k (requests_shown (r ∷ rest))

  unfoldable pub handle_list_command :
      (Bytes → Option Bytes → State → Option (List JitAccessRequest))
      → List Bytes
      → State
      → K8sReply api
  handle_list_command listing args k =
      let user : Option Bytes = if is_mine args then some cmd.user_id else none in
      elim (listing namespace user k) [ none ↦ fails api k refused | some items ↦ shown k items ]
