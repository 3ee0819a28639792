-- ===== src/Handlers.antt =====
-- internal/handlers: the HTTP API over the table of users, the store and EKS. A handler takes the
-- request and the server's state and gives the new state and the answer. The JSON decoders, the
-- query parser, time.ParseDuration, the source of identifiers and the clock are parameters; that
-- an answer cannot be written to its connection is left out. The clock is read once for a request.
--
-- The store keeps pointers: a handler that changes a record which it has looked up and then writes
-- it back changes the one record, so the state after the write is what both have done.
pub mod Start
pub mod Admin
pub mod Access
pub mod Router
use jit_bot.Base.{ℕ, Bool, true, false, List, [], ◌∷◌, Option, none, some, Bytes, if◌then◌else◌}
use jit_bot.Base.Int.{ℤ}
use jit_bot.Base.Result.{Result, ok, err}
use jit_bot.Models.{Cluster, ClusterAccess}
use jit_bot.Auth.{Rbac, Role, Permission, PermissionError, validate_permission}
use jit_bot.Store.{MemoryStore, StoreError}
use jit_bot.Aws.{EksServer, AwsError}
use jit_bot.Access.{GrantError, GrantAnswers}
use jit_bot.Webhook.Duration.{is_nil}

-- The body of a grant.
pub record GrantBody : Type 0 where
  pub cluster_id : Bytes
  pub user_id : Bytes
  pub user_email : Bytes
  pub permissions : List Bytes
  pub namespaces : List Bytes
  pub duration : Bytes
  pub reason : Bytes
  pub jit_role_arn : Bytes
  pub assume_role_arn : Bytes

-- The body of ManageUser.
pub record RoleBody : Type 0 where
  pub user_id : Bytes
  pub role : Role

-- The libraries that read a request.
pub record Decoders : Type 0 where
  pub decode_cluster : Bytes → Option Cluster
  pub decode_role : Bytes → Option RoleBody
  pub decode_grant : Bytes → Option GrantBody
  pub decode_revoke : Bytes → Option Bytes
  pub parse_duration : Bytes → Option ℤ

-- What a handler reads of a request: the header X-Slack-User-Id, the body, the query by its keys.
pub record HttpRequest : Type 0 where
  pub user_id : Bytes
  pub body : Bytes
  pub query : Bytes → Bytes

-- What the world gives a handler: the clock, a fresh identifier, the answers of AWS, and the text
-- of the time of a revocation.
pub record World : Type 0 where
  pub now : ℤ
  pub fresh_id : Bytes
  pub answers : GrantAnswers
  pub timestamp : Bytes

-- The body of the answer to a grant.
pub record AccessResponse : Type 0 where
  pub access_id : Bytes
  pub cluster_name : Bytes
  pub user_id : Bytes
  pub kube_config : Bytes
  pub cluster_endpoint : Bytes
  pub expires_at : ℤ
  pub access_key_id : Bytes
  pub secret_access_key : Bytes
  pub session_token : Bytes
  pub expiration : ℤ

pub data Payload : Type 0 where
  no_content : Payload
  text_body : Bytes → Payload
  cluster_body : Cluster → Payload
  clusters_body : List Cluster → Payload
  role_updated : Bytes → Role → Payload
  granted_body : AccessResponse → Payload
  accesses_body : List ClusterAccess → Payload
  cleaned_body : Bytes → ℕ → Payload
  access_body : ClusterAccess → Payload

-- The message of http.Error.
pub data Failure : Type 0 where
  missing_user_id invalid_body missing_cluster_id missing_access_id missing_fields : Failure
  duration_too_long method_not_allowed aws_list_failed : Failure
  forbidden : PermissionError → Failure
  store_failed : StoreError → Failure
  cluster_unknown access_unknown invalid_duration : Bytes → Failure
  grant_failed : GrantError → Failure
  revoke_failed : AwsError → Failure
  granted_not_stored revoked_not_stored : StoreError → Failure

-- A status code with its body.
pub data Answer : Type 0 where
  replied : ℕ → Payload → Answer
  failed : ℕ → Failure → Answer

module _ (eks : EksServer) where
  pub record Server : Type 0 where
    pub rbac : Rbac
    pub store : MemoryStore
    pub entries : eks.State

  -- The two checks that most handlers begin with: the header is there, and the user has a right.
  unfoldable pub with_user : Permission → Bytes → Server → (Server × Answer) → Server × Answer
  with_user permission user s rest =
      if is_nil user
      then (s, failed 401 missing_user_id)
      else elim (validate_permission s.rbac user permission) [
        | some e ↦ (s, failed 403 (forbidden e))
        | none ↦ rest
      ]
