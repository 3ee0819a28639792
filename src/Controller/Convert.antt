-- ===== src/Controller/Convert.antt =====
-- The helpers of pkg/controller/jitjob_controller.go: what the job reconciler hands to the access
-- manager, and the secrets that it creates. `parse_duration` is time.ParseDuration, whose value is 0
-- where it returns an error; `format_time` prints a time in the form RFC3339.
use jit_bot.Base.{true, [], ◌∷◌, ◌++◌, Option, none, some, Bytes, codes}
use jit_bot.Base.Int.{ℤ, pos, zero_time}
use jit_bot.Models.{Cluster, ClusterAccess, AccessStatus}
use jit_bot.Access.{GrantAccessRequest, AccessCredentials}
use jit_bot.Controller.Types.{JitAccessRequest, JitAccessJob, TargetCluster}
use jit_bot.Controller.Kube.{Secret}

abbrev pub or_zero : Option ℤ → ℤ
or_zero none = pos 0
or_zero (some d) = d

unfoldable pub convert_to_cluster_access : (Bytes → Option ℤ) → JitAccessRequest → ClusterAccess
convert_to_cluster_access parse_duration req = record {
  id = req.meta.name;
  cluster_id = req.spec.target_cluster.name;
  user_id = req.spec.user_id;
  user_email = req.spec.user_email;
  reason = req.spec.reason;
  duration = or_zero (parse_duration req.spec.duration);
  status = AccessStatus.active;
  approved_by = [];
  requested_at = req.spec.requested_at;
  approved_at = none;
  expires_at = none;
  revoked_at = none;
  revoked_by = [];
  revoke_reason = [];
}

unfoldable pub convert_to_cluster : (Bytes → Option ℤ) → TargetCluster → Cluster
convert_to_cluster parse_duration target = record {
  id = target.name;
  name = target.name;
  display_name = target.name;
  aws_account = target.aws_account;
  region = target.region;
  environment = [];
  tags = [];
  max_duration = or_zero (parse_duration (codes "8h"));
  required_approvers = pos 0;
  enabled = true;
  created_at = zero_time;
  updated_at = zero_time;
  created_by = [];
}

-- The request for the access manager that handleCreatingJob builds.
unfoldable pub grant_request :
    (Bytes → Option ℤ) → JitAccessJob → JitAccessRequest → GrantAccessRequest
grant_request parse_duration job req = record {
  cluster_access = convert_to_cluster_access parse_duration req;
  cluster = convert_to_cluster parse_duration req.spec.target_cluster;
  user_email = req.spec.user_email;
  permissions = job.spec.permissions;
  namespaces = job.spec.namespaces;
  jit_role_arn = job.spec.jit_role_arn;
  assume_role_arn = [];
}

-- The secret of createCredentialsSecret.
unfoldable pub credentials_secret : (ℤ → Bytes) → JitAccessJob → AccessCredentials → Secret
credentials_secret format_time job creds = record {
  name = codes "jit-credentials-" ++ job.meta.name;
  namespace = job.meta.namespace;
  labels =
      (codes "jit.rebelops.io/job", job.meta.name)
      ∷ (codes "jit.rebelops.io/type", codes "credentials")
      ∷ [];
  content =
      (codes "aws-access-key-id", creds.temporary_credentials.access_key_id)
      ∷ (codes "aws-secret-access-key", creds.temporary_credentials.secret_access_key)
      ∷ (codes "aws-session-token", creds.temporary_credentials.session_token)
      ∷ (codes "expires-at", format_time creds.expires_at)
      ∷ [];
}

-- The secret of createKubeConfigSecret.
unfoldable pub kube_config_secret : JitAccessJob → Bytes → Secret
kube_config_secret job kube_config = record {
  name = codes "jit-kubeconfig-" ++ job.meta.name;
  namespace = job.meta.namespace;
  labels =
      (codes "jit.rebelops.io/job", job.meta.name)
      ∷ (codes "jit.rebelops.io/type", codes "kubeconfig")
      ∷ [];
  content = (codes "kubeconfig", kube_config) ∷ [];
}
