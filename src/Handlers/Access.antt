-- ===== src/Handlers/Access.antt =====
-- internal/handlers/access.go: grant and revoke accesses.
pub mod Grant
pub mod Keeps
pub mod Later
pub mod Views
use jit_bot.Base.{
  ℕ, suc, Bool, true, false, not, ◌&&◌, ◌||◌, List, [], ◌∷◌, ◌++◌, Option, none, some, Bytes, codes,
  length, ◌==◌, str_eq, if◌then◌else◌,
}
use jit_bot.Base.Int.{ℤ, ◌+ℤ◌, ltb_ℤ}
use jit_bot.Base.Result.{Result, ok, err}
use jit_bot.Models.{Cluster, ClusterAccess, AccessStatus}
use jit_bot.Auth.{
  Rbac, Permission, PermissionError, create_requests, view_requests, revoke_access, manage_clusters,
  validate_permission,
}
use jit_bot.Store.{
  MemoryStore, StoreError, get_cluster, create_cluster_access, get_cluster_access,
  update_cluster_access, list_cluster_access,
}
use jit_bot.Aws.{EksServer}
use jit_bot.Access
use jit_bot.Access.{GrantAccessRequest, AccessCredentials, GrantError, grant_access}
use jit_bot.Cleanup.{list_active_access}
use jit_bot.Webhook.Duration.{is_nil}
use jit_bot.Handlers.{
  HttpRequest, World, Decoders, GrantBody, AccessResponse, Server, Answer, replied, failed,
  with_user, no_content, granted_body, accesses_body, cleaned_body, access_body, missing_user_id,
  invalid_body, missing_cluster_id, missing_access_id, missing_fields, duration_too_long,
  aws_list_failed, forbidden, cluster_unknown, access_unknown, invalid_duration, grant_failed,
  revoke_failed, granted_not_stored, revoked_not_stored,
}

abbrev pub or_view : List Bytes → List Bytes
or_view permissions = if length permissions == 0 then codes "view" ∷ [] else permissions

abbrev pub role_arn : Cluster → Bytes
role_arn cluster = codes "arn:aws:iam::" ++ (cluster.aws_account ++ codes ":role/JITAccessRole")

-- The access that a grant records.
unfoldable pub new_access : ℤ → Bytes → ℤ → GrantBody → ClusterAccess
new_access now id duration body = record {
  id = id;
  cluster_id = body.cluster_id;
  user_id = body.user_id;
  user_email = body.user_email;
  reason = body.reason;
  duration = duration;
  status = AccessStatus.active;
  approved_by = [];
  requested_at = now;
  approved_at = none;
  expires_at = some (now +ℤ duration);
  revoked_at = none;
  revoked_by = [];
  revoke_reason = [];
}

-- The request for the access manager, with the defaults of the handler.
unfoldable pub manager_request : ClusterAccess → Cluster → GrantBody → GrantAccessRequest
manager_request access cluster body = record {
  cluster_access = access;
  cluster = cluster;
  user_email = body.user_email;
  permissions = or_view body.permissions;
  namespaces = body.namespaces;
  jit_role_arn = if is_nil body.jit_role_arn then role_arn cluster else body.jit_role_arn;
  assume_role_arn = body.assume_role_arn;
}

unfoldable pub access_response : ClusterAccess → Cluster → AccessCredentials → AccessResponse
access_response access cluster creds = record {
  access_id = access.id;
  cluster_name = cluster.name;
  user_id = access.user_id;
  kube_config = creds.kube_config;
  cluster_endpoint = creds.cluster_endpoint;
  expires_at = creds.expires_at;
  access_key_id = creds.temporary_credentials.access_key_id;
  secret_access_key = creds.temporary_credentials.secret_access_key;
  session_token = creds.temporary_credentials.session_token;
  expiration = creds.temporary_credentials.expiration;
}

abbrev pub lacks_field : GrantBody → Bool
lacks_field body = is_nil body.cluster_id || is_nil body.user_id || is_nil body.user_email

-- Whether a time that is set lies before the clock.
abbrev pub is_past : ℤ → Option ℤ → Bool
is_past now none = false
is_past now (some t) = ltb_ℤ t now

abbrev pub is_active : AccessStatus → Bool
is_active AccessStatus.active = true
is_active _ = false

module _ (eks : EksServer) (lib : Decoders) (listing : Bytes → eks.State → Option (List Bytes))
    (world : World) (req : HttpRequest) where
  -- The end of GrantAccess: the access is stored. The grant in EKS stays where that fails.
  unfoldable pub store_grant :
      ClusterAccess
      → Cluster
      → Server eks
      → eks.State × Result GrantError AccessCredentials
      → Server eks × Answer
  store_grant access cluster s (entries, err e) =
      (record s { entries = entries }, failed 500 (grant_failed e))
  store_grant access cluster s (entries, ok creds) = elim (create_cluster_access s.store access) [
    | err e ↦ (record s { entries = entries }, failed 500 (granted_not_stored e))
    | ok store ↦ (
      record s { store = store; entries = entries },
      replied 200 (granted_body (access_response access cluster creds)),
    )
  ]

  -- GrantAccess behind the checks of the body, on a cluster and a duration.
  unfoldable pub grant_for : GrantBody → Cluster → ℤ → Server eks → Server eks × Answer
  grant_for body cluster duration s =
      let access = new_access world.now world.fresh_id duration body in
      if ltb_ℤ cluster.max_duration duration
      then (s, failed 400 duration_too_long)
      else store_grant access cluster s
          (grant_access eks world.answers (manager_request access cluster body) s.entries)

  unfoldable pub grant_checked : GrantBody → Server eks → Server eks × Answer
  grant_checked body s =
      if lacks_field body
      then (s, failed 400 missing_fields)
      else elim (get_cluster s.store body.cluster_id) [
        | err e ↦ (s, failed 404 (cluster_unknown body.cluster_id))
        | ok cluster ↦ elim (lib.parse_duration body.duration) [
          | none ↦ (s, failed 400 (invalid_duration body.duration))
          | some duration ↦ grant_for body cluster duration s
        ]
      ]

  unfoldable pub grant_access_handler : Server eks → Server eks × Answer
  grant_access_handler s =
      with_user eks create_requests req.user_id s (elim (lib.decode_grant req.body) [
        | none ↦ (s, failed 400 invalid_body)
        | some body ↦ grant_checked body s
      ])

  -- The user's own access, or the right to another's; `none` is nil.
  unfoldable pub may_touch : Rbac → Permission → ClusterAccess → Option PermissionError
  may_touch rbac permission access =
      if str_eq access.user_id req.user_id
      then none
      else validate_permission rbac req.user_id permission

  -- RevokeAccess behind the checks.
  unfoldable pub revoke_on : ClusterAccess → Cluster → Server eks → Server eks × Answer
  revoke_on access cluster s =
      elim (Access.revoke_access eks world.answers.aws world.timestamp access cluster
        (role_arn cluster) s.entries) [
          | err e ↦ (s, failed 500 (revoke_failed e))
          | ok entries ↦
              elim (update_cluster_access s.store
                (record access { status = AccessStatus.revoked; revoked_at = some world.now })) [
                  | err e ↦ (record s { entries = entries }, failed 500 (revoked_not_stored e))
                  | ok store ↦
                      (record s { store = store; entries = entries }, replied 204 no_content)
                ]
        ]

  unfoldable pub revoke_checked : Bytes → Server eks → Server eks × Answer
  revoke_checked id s = elim (get_cluster_access s.store id) [
    | err e ↦ (s, failed 404 (access_unknown id))
    | ok access ↦ elim (may_touch s.rbac revoke_access access) [
      | some e ↦ (s, failed 403 (forbidden e))
      | none ↦ elim (get_cluster s.store access.cluster_id) [
        | err e ↦ (s, failed 404 (cluster_unknown access.cluster_id))
        | ok cluster ↦ revoke_on access cluster s
      ]
    ]
  ]

  unfoldable pub revoke_access_handler : Server eks → Server eks × Answer
  revoke_access_handler s =
      if is_nil req.user_id
      then (s, failed 401 missing_user_id)
      else elim (lib.decode_revoke req.body) [
        | none ↦ (s, failed 400 invalid_body)
        | some id ↦ revoke_checked id s
      ]
