-- ===== src/Aws/Calls.antt =====
-- The inputs that pkg/aws/sts.go and pkg/aws/eks.go hand to the clients of AWS, and the results that
-- they make of the answers. `none` is a field that is left nil. A client is a parameter.
use jit_bot.Base.{List, [], ◌∷◌, Option, none, some, Bytes}
use jit_bot.Base.Int.{ℤ}
use jit_bot.Base.Result.{Result, ok, err}
use jit_bot.Aws.{Credentials, AccessPolicy, PolicyArn, ScopeType}

abbrev pub Tags : Type 0
Tags = List (Bytes × Bytes)

pub record AssumeRoleInput : Type 0 where
  pub role_arn : Bytes
  pub session_name : Bytes
  pub duration_seconds : ℤ
  pub external_id : Bytes
  pub policy : Bytes
  pub tags : Tags

pub record StsAssumeRole : Type 0 where
  pub role_arn : Bytes
  pub role_session_name : Bytes
  pub duration_seconds : ℤ
  pub external_id : Option Bytes
  pub policy : Option Bytes
  pub tags : Tags

pub record StsWebIdentity : Type 0 where
  pub role_arn : Bytes
  pub role_session_name : Bytes
  pub web_identity_token : Bytes
  pub duration_seconds : ℤ

abbrev given : Bytes → Option Bytes
given [] = none
given (c ∷ s) = some (c ∷ s)

-- What AssumeRole sends.
unfoldable pub assume_role_request : AssumeRoleInput → StsAssumeRole
assume_role_request input = record {
  role_arn = input.role_arn;
  role_session_name = input.session_name;
  duration_seconds = input.duration_seconds;
  external_id = given input.external_id;
  policy = given input.policy;
  tags = input.tags;
}

pub data StsError (X : Type 0) : Type 0 where
  failed_to_assume_role failed_to_assume_with_identity : X → StsError X

-- The four fields of the answer's credentials are copied.
unfoldable pub assume_role :
    {X : Type 0}
    → (StsAssumeRole → Result X Credentials)
    → AssumeRoleInput
    → Result (StsError X) Credentials
unfolding assume_role_request
assume_role client input = elim (client (assume_role_request input)) [
  | ok creds ↦ ok creds
  | err e ↦ err (failed_to_assume_role e)
]

unfoldable pub assume_role_with_web_identity :
    {X : Type 0}
    → (StsWebIdentity → Result X Credentials)
    → (role_arn web_identity_token session_name : Bytes) → ℤ
    → Result (StsError X) Credentials
assume_role_with_web_identity client role_arn web_identity_token session_name duration_seconds =
    elim (client (record {
      role_arn = role_arn;
      role_session_name = session_name;
      web_identity_token = web_identity_token;
      duration_seconds = duration_seconds;
    })) [ ok creds ↦ ok creds | err e ↦ err (failed_to_assume_with_identity e) ]

pub record EksAssociate : Type 0 where
  pub cluster_name : Bytes
  pub principal_arn : Bytes
  pub policy_arn : PolicyArn
  pub scope_type : ScopeType
  -- none where no namespaces are set
  pub scope_namespaces : Option (List Bytes)

abbrev set_namespaces : List Bytes → Option (List Bytes)
set_namespaces [] = none
set_namespaces (n ∷ names) = some (n ∷ names)

-- The input of AssociateAccessPolicy.
unfoldable pub associate_input : Bytes → Bytes → AccessPolicy → EksAssociate
associate_input cluster_name principal_arn policy = record {
  cluster_name = cluster_name;
  principal_arn = principal_arn;
  policy_arn = policy.policy_arn;
  scope_type = policy.access_scope.kind;
  scope_namespaces = set_namespaces policy.access_scope.namespaces;
}

-- `none` is nil.
unfoldable pub associate_access_policy :
    {X : Type 0} → (EksAssociate → Option X) → Bytes → Bytes → AccessPolicy → Option X
unfolding associate_input
associate_access_policy client cluster_name principal_arn policy =
    client (associate_input cluster_name principal_arn policy)

unfoldable pub describe_cluster : {X C : Type 0} → (Bytes → Result X C) → Bytes → Result X C
describe_cluster client cluster_name = client cluster_name
