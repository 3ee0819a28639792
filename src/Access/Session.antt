-- ===== src/Access/Session.antt =====
-- The session of a grant: what GrantAccess of pkg/kubernetes/access.go asks STS for.
use jit_bot.Base.{◌+◌, ◌/◌, ◌≡◌, refl, [], ◌∷◌, some, Bytes, codes}
use jit_bot.Base.Int.{ℤ, pos, negsuc, sub_ℕ}
use jit_bot.Aws.{EksServer, generate_jit_session_name}
use jit_bot.Aws.Aged.{create_jit_policy}
use jit_bot.Aws.Calls.{AssumeRoleInput, StsAssumeRole, assume_role_request}
use jit_bot.Access.{GrantAccessRequest, principal_arn, grant_principal}

-- The whole seconds of a duration in nanoseconds, cut towards zero.
abbrev pub whole_seconds : ℤ → ℤ
whole_seconds (pos n) = pos (n / 1000000000)
whole_seconds (negsuc n) = sub_ℕ 0 ((n + 1) / 1000000000)

-- `int32` is Go's conversion of the seconds, which depends on the machine beyond its range.
unfoldable pub grant_session : (ℤ → ℤ) → Bytes → GrantAccessRequest → AssumeRoleInput
grant_session int32 timestamp req = record {
  role_arn = req.jit_role_arn;
  session_name = generate_jit_session_name timestamp req.cluster_access.user_id req.cluster.id;
  duration_seconds = int32 (whole_seconds req.cluster_access.duration);
  external_id = [];
  policy = create_jit_policy req.cluster.name [] req.permissions;
  tags =
      (codes "Purpose", codes "JITAccess")
      ∷ (codes "UserID", req.cluster_access.user_id)
      ∷ (codes "ClusterID", req.cluster.id)
      ∷ (codes "RequestID", req.cluster_access.id)
      ∷ [];
}

module _ (eks : EksServer) (int32 : ℤ → ℤ) (timestamp : Bytes) (req : GrantAccessRequest) where
  abbrev sent : StsAssumeRole
  sent = assume_role_request (grant_session int32 timestamp req)

  -- The access entry of a grant is for the principal of exactly the session that STS is asked for,
  -- under the same role; and the session always has a policy, the one for the cluster's name.
  pub grant_session-principal :
      (grant_principal eks timestamp req
        ≡ principal_arn req.cluster.aws_account sent.role_arn sent.role_session_name)
      × (sent.policy ≡ some (create_jit_policy req.cluster.name [] []))
  unfolding grant_session assume_role_request grant_principal create_jit_policy
  grant_session-principal = (refl, refl)
