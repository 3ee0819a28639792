-- ===== src/Slack/Commands.antt =====
-- pkg/slack/commands.go: the /jit command over the store. A message is named for its text; what a
-- list or a request shows is kept. strings.Fields is that of ASCII.
pub mod Effect
use jit_bot.Base.{
  ℕ, Bool, true, false, List, [], ◌∷◌, ◌++◌, Option, none, some, Bytes, codes, is_space, join,
  str_eq, if◌then◌else◌,
}
use jit_bot.Base.Int.{ℤ}
use jit_bot.Base.Result.{Result, ok, err}
use jit_bot.Models.{Cluster, ClusterAccess, AccessStatus}
use jit_bot.Auth.{Rbac, manage_clusters, validate_permission}
use jit_bot.Store.{
  MemoryStore, get_cluster, create_access, list_clusters, list_user_accesses, cluster_not_found,
}
use jit_bot.Slack.{SlackCommand}

-- One line of /jit status.
pub record StatusLine : Type 0 where
  pub cluster_name : Bytes
  pub status : AccessStatus
  pub requested_at : ℤ
  pub duration : ℤ

-- The answer to a request.
pub record Submitted : Type 0 where
  pub request_id : Bytes
  pub display_name : Bytes
  pub duration : ℤ
  pub reason : Bytes

pub data Message : Type 0 where
  form_error help request_usage create_failed no_cluster no_access no_admin : Message
  admin_usage use_cluster_api use_role_api : Message
  unknown_command unknown_admin_command cluster_missing cluster_disabled : Bytes → Message
  submitted : Submitted → Message
  clusters_shown : List Cluster → Message
  statuses_shown : List StatusLine → Message

-- strings.Fields; the first argument is the field that is being read.
unfoldable pub fields_from : Bytes → Bytes → List Bytes
fields_from [] [] = []
fields_from (b ∷ cur) [] = (b ∷ cur) ∷ []
fields_from [] (c ∷ s) =
    let skip = fields_from [] s in
    let more = fields_from (c ∷ []) s in if is_space c then skip else more
fields_from (b ∷ cur) (c ∷ s) =
    let cut = (b ∷ cur) ∷ fields_from [] s in
    let more = fields_from (b ∷ (cur ++ c ∷ [])) s in if is_space c then cut else more

abbrev pub fields : Bytes → List Bytes
unfolding fields_from
fields s = fields_from [] s

-- The loop of handleListClusters: the clusters that are enabled.
unfoldable pub enabled_clusters : List Cluster → List Cluster
enabled_clusters [] = []
enabled_clusters (c ∷ rest) =
    let kept = enabled_clusters rest in if c.enabled then c ∷ kept else kept

unfoldable pub status_line : MemoryStore → ClusterAccess → StatusLine
status_line store access = record {
  cluster_name = elim (get_cluster store access.cluster_id) [
    | ok cluster ↦ cluster.display_name
    | err e ↦ access.cluster_id
  ];
  status = access.status;
  requested_at = access.requested_at;
  duration = access.duration;
}

unfoldable pub status_lines : MemoryStore → List ClusterAccess → List StatusLine
status_lines store [] = []
status_lines store (a ∷ rest) = status_line store a ∷ status_lines store rest

abbrev shown_clusters : List Cluster → Message
unfolding enabled_clusters
shown_clusters [] = no_cluster
shown_clusters (c ∷ rest) = clusters_shown (enabled_clusters (c ∷ rest))

abbrev shown_statuses : MemoryStore → List ClusterAccess → Message
unfolding status_lines
shown_statuses store [] = no_access
shown_statuses store (a ∷ rest) = statuses_shown (status_lines store (a ∷ rest))

unfoldable pub handle_list_clusters : MemoryStore → Message
unfolding enabled_clusters
handle_list_clusters store = shown_clusters (list_clusters store)

unfoldable pub handle_status : MemoryStore → SlackCommand → Message
unfolding status_lines
handle_status store cmd = shown_statuses store (list_user_accesses store cmd.user_id)

abbrev pub admin_command : List Bytes → Message
admin_command [] = admin_usage
admin_command (sub ∷ args) =
    if str_eq sub (codes "add-cluster")
    then use_cluster_api
    else if str_eq sub (codes "grant-role")
    then use_role_api
    else unknown_admin_command sub

unfoldable pub handle_admin : Rbac → SlackCommand → List Bytes → Message
handle_admin rbac cmd args = elim (validate_permission rbac cmd.user_id manage_clusters) [
  | some e ↦ no_admin
  | none ↦ admin_command args
]

-- The access that a request creates, for the longest time that the cluster allows.
unfoldable pub requested_access : ℤ → Bytes → SlackCommand → Bytes → Bytes → Cluster → ClusterAccess
requested_access now id cmd cluster_id reason cluster = record {
  id = id;
  cluster_id = cluster_id;
  user_id = cmd.user_id;
  user_email = cmd.user_name ++ codes "@company.com";
  reason = reason;
  duration = cluster.max_duration;
  status = AccessStatus.pending;
  approved_by = [];
  requested_at = now;
  approved_at = none;
  expires_at = none;
  revoked_at = none;
  revoked_by = [];
  revoke_reason = [];
}

module _ (rbac : Rbac) (now : ℤ) (fresh_id : Bytes) (cmd : SlackCommand) where
  -- handleRequestAccess behind the look-up of the cluster.
  unfoldable pub request_on : Bytes → Bytes → Cluster → MemoryStore → MemoryStore × Message
  request_on cluster_id reason cluster store =
      let access = requested_access now fresh_id cmd cluster_id reason cluster in
      if cluster.enabled
      then elim (create_access store access) [
        | err e ↦ (store, create_failed)
        | ok store' ↦ (
          store',
          submitted (record {
            request_id = fresh_id;
            display_name = cluster.display_name;
            duration = cluster.max_duration;
            reason = reason;
          }),
        )
      ]
      else (store, cluster_disabled cluster_id)

  unfoldable pub handle_request_access : List Bytes → MemoryStore → MemoryStore × Message
  handle_request_access (cluster_id ∷ word ∷ words) store = elim (get_cluster store cluster_id) [
    | err e ↦ (store, cluster_missing cluster_id)
    | ok cluster ↦ request_on cluster_id (join (word ∷ words) (codes " ")) cluster store
  ]
  handle_request_access _ store = (store, request_usage)

  -- The `switch` on the subcommand.
  unfoldable pub run_subcommand : Bytes → List Bytes → MemoryStore → MemoryStore × Message
  run_subcommand sub args store =
      if str_eq sub (codes "request")
      then handle_request_access args store
      else if str_eq sub (codes "list")
      then (store, handle_list_clusters store)
      else if str_eq sub (codes "status")
      then (store, handle_status store cmd)
      else if str_eq sub (codes "admin")
      then (store, handle_admin rbac cmd args)
      else if str_eq sub (codes "help")
      then (store, help)
      else (store, unknown_command sub)

  abbrev pub run_fields : List Bytes → MemoryStore → MemoryStore × Message
  run_fields [] store = (store, help)
  run_fields (sub ∷ args) store = run_subcommand sub args store

  -- HandleJITCommand; the form has been parsed.
  unfoldable pub handle_jit_command : MemoryStore → MemoryStore × Message
  handle_jit_command store = run_fields (fields cmd.text) store
