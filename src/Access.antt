-- ===== src/Access.antt =====
-- AccessManager of pkg/kubernetes/access.go: grant and revoke access to a cluster. What STS and EKS
-- answer is a parameter of each operation.
pub mod Names
pub mod Revoke
pub mod Session
use jit_bot.Base.{
  ℕ, Bool, true, false, ◌&&◌, List, [], ◌∷◌, ◌++◌, Option, none, some, Bytes, codes, contains_text,
  last_or, ◌==◌, if◌then◌else◌,
}
use jit_bot.Base.Int.{ℤ}
use jit_bot.Base.Result.{Result, ok, err}
use jit_bot.Models.{Cluster, ClusterAccess}
use jit_bot.Aws.{
  Credentials, EksServer, AwsAnswers, AwsError, generate_jit_session_name, create_jit_access_entry,
  delete_access_entry,
}

pub record GrantAccessRequest : Type 0 where
  pub cluster_access : ClusterAccess
  pub cluster : Cluster
  pub user_email : Bytes
  pub permissions : List Bytes
  pub namespaces : List Bytes
  pub jit_role_arn : Bytes
  pub assume_role_arn : Bytes

pub record AccessCredentials : Type 0 where
  pub temporary_credentials : Credentials
  pub kube_config : Bytes
  pub cluster_endpoint : Bytes
  pub expires_at : ℤ

-- What DescribeCluster says of a cluster.
pub record EksCluster : Type 0 where
  pub name : Bytes
  pub endpoint : Bytes
  pub certificate_authority : Bytes

-- strings.Split by one byte.
unfoldable pub split : ℕ → Bytes → Bytes → List Bytes
split sep cur [] = cur ∷ []
split sep cur (c ∷ s) =
    let cut = cur ∷ split sep [] s in
    let more = split sep (cur ++ c ∷ []) s in if c == sep then cut else more

unfoldable pub extract_role_name : Bytes → Bytes
extract_role_name role_arn = last_or (codes "unknown") (split b'/' [] role_arn)

unfoldable pub is_jit_entry : Bytes → Bool
is_jit_entry entry_arn =
    contains_text (codes "assumed-role") entry_arn && contains_text (codes "jit-") entry_arn

-- The ARN of a session: the `Sprintf` that GrantAccess and RevokeAccess share.
unfoldable pub principal_arn : Bytes → Bytes → Bytes → Bytes
principal_arn aws_account role_arn session_name =
    codes "arn:aws:sts::"
    ++ (aws_account
        ++ (codes ":assumed-role/" ++ (extract_role_name role_arn ++ (codes "/" ++ session_name))))

-- The answers of STS and EKS that are values; `timestamp` and `created_at` are the texts of the
-- clock in GenerateJITSessionName and CreateJITAccessEntry.
pub record GrantAnswers : Type 0 where
  pub timestamp : Bytes
  pub created_at : Bytes
  pub assume_role : Option Credentials
  pub aws : AwsAnswers
  pub describe_cluster : Option EksCluster

pub data GrantError : Type 0 where
  assume_role_failed describe_failed : GrantError
  entry_failed : AwsError → GrantError

abbrev pub line : Bytes → Bytes → Bytes
line label value = label ++ (value ++ 10 ∷ [])

unfoldable pub generate_kube_config : EksCluster → Credentials → Bytes → Bytes
generate_kube_config cluster creds region =
    line (codes "apiVersion: v1") []
    ++ (line (codes "kind: Config") []
        ++ (line (codes "clusters:") []
            ++ (line (codes "- cluster:") []
                ++ (line (codes "    certificate-authority-data: ") cluster.certificate_authority
                    ++ (line (codes "    server: ") cluster.endpoint
                        ++ (line (codes "  name: ") cluster.name
                            ++ (line (codes "contexts:") []
                                ++ (line (codes "- context:") []
                                    ++ (line (codes "    cluster: ") cluster.name
                                        ++ (line (codes "    user: ") cluster.name
                                            ++ (line (codes "  name: ") cluster.name
                                                ++ (line (codes "current-context: ") cluster.name
                                                    ++ (line (codes "users:") []
                                                        ++ (line (codes "- name: ") cluster.name
                                                            ++ (line (codes "  user:") []
                                                            ++ (line (codes "    exec:") []
                                                            ++ (line
                                                            (codes
                                                            "      apiVersion: client.authentication.k8s.io/v1beta1")
                                                            []
                                                            ++ (line (codes "      command: aws") []
                                                            ++ (line (codes "      args:") []
                                                            ++ (line (codes "        - eks") []
                                                            ++ (line (codes "        - get-token")
                                                            []
                                                            ++ (line
                                                            (codes "        - --cluster-name") []
                                                            ++ (line (codes "        - ")
                                                            cluster.name
                                                            ++ (line (codes "        - --region") []
                                                            ++ (line (codes "        - ") region
                                                            ++ (line (codes "      env:") []
                                                            ++ (line
                                                            (codes
                                                            "        - name: AWS_ACCESS_KEY_ID")
                                                            []
                                                            ++ (line (codes "          value: ")
                                                            creds.access_key_id
                                                            ++ (line
                                                            (codes
                                                            "        - name: AWS_SECRET_ACCESS_KEY")
                                                            []
                                                            ++ (line (codes "          value: ")
                                                            creds.secret_access_key
                                                            ++ (line
                                                            (codes
                                                            "        - name: AWS_SESSION_TOKEN")
                                                            []
                                                            ++ line (codes "          value: ")
                                                            creds.session_token)))))))))))))))))))))))))))))))

module _ (eks : EksServer) where
  open eks use {State}

  -- The session of a grant, and the principal that its entry is for.
  unfoldable pub grant_principal : Bytes → GrantAccessRequest → Bytes
  grant_principal timestamp req =
      principal_arn req.cluster.aws_account req.jit_role_arn
        (generate_jit_session_name timestamp req.cluster_access.user_id req.cluster.id)

  -- The rest of GrantAccess, behind the credentials. An entry that has been created stays where
  -- DescribeCluster fails.
  unfoldable pub grant_entry :
      GrantAnswers
      → GrantAccessRequest
      → Credentials
      → State
      → State × Result GrantError AccessCredentials
  grant_entry answers req creds s =
      elim (create_jit_access_entry eks answers.aws answers.created_at req.cluster.name
        (grant_principal answers.timestamp req) (codes "jit:" ++ req.cluster_access.user_id)
        req.permissions req.namespaces s) [
          | err e ↦ (s, err (entry_failed e))
          | ok s' ↦ elim answers.describe_cluster [
            | none ↦ (s', err describe_failed)
            | some cluster ↦ (
              s',
              ok (record {
                temporary_credentials = creds;
                kube_config = generate_kube_config cluster creds req.cluster.region;
                cluster_endpoint = cluster.endpoint;
                expires_at = creds.expiration;
              }),
            )
          ]
        ]

  unfoldable pub grant_access :
      GrantAnswers → GrantAccessRequest → State → State × Result GrantError AccessCredentials
  grant_access answers req s = elim answers.assume_role [
    | none ↦ (s, err assume_role_failed)
    | some creds ↦ grant_entry answers req creds s
  ]

  -- RevokeAccess; `timestamp` is the text of the clock when it is called.
  unfoldable pub revoke_access :
      AwsAnswers → Bytes → ClusterAccess → Cluster → Bytes → State → Result AwsError State
  revoke_access answers timestamp access cluster jit_role_arn s =
      delete_access_entry eks answers cluster.name
        (principal_arn cluster.aws_account jit_role_arn
          (generate_jit_session_name timestamp access.user_id cluster.id))
        s
