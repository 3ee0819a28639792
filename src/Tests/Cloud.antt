-- ===== src/Tests/Cloud.antt =====
-- Grants and revocations on a server that keeps its entries in an association list.
use jit_bot.Base.{◌≡◌, ◌≢◌, refl, false, List, [], ◌∷◌, some, Bytes, codes, str_eq, str_eq_iff, All}
use jit_bot.Base.Int.{pos}
use jit_bot.Base.Map.{lookup}
use jit_bot.Base.Result.{ok, state_after}
use jit_bot.Aws.{
  AwsAnswers, AccessEntry, EntryKey, entry_eq, Credentials, access_policies,
  create_jit_access_entry, create_access_entry, is_any,
}
use jit_bot.Aws.Memory.{entries}
use jit_bot.Aws.Policies.{IsConfined, access_policies-IsConfined}
use jit_bot.Access.{
  GrantAccessRequest, GrantAnswers, EksCluster, AccessCredentials, generate_kube_config,
  grant_access, grant_entry, revoke_access,
}
use jit_bot.Access.Revoke.{grant_key, revoke_misses, revoke_undoes}
use jit_bot.Tests.Tables.{dev_cluster, alice_access}

abbrev pub willing : AwsAnswers
willing = record { refuses_create = false; refuses_associate = λ p. false; refuses_delete = false }

abbrev session : Credentials
session = record {
  access_key_id = codes "AKIA";
  secret_access_key = codes "secret";
  session_token = codes "token";
  expiration = pos 3600;
}

abbrev dev_eks : EksCluster
dev_eks = record {
  name = codes "dev-cluster";
  endpoint = codes "https://dev";
  certificate_authority = codes "CA";
}

abbrev pub at_noon : GrantAnswers
at_noon = record {
  timestamp = codes "20240101-120000";
  created_at = codes "2024-01-01T12:00:00Z";
  assume_role = some session;
  aws = willing;
  describe_cluster = some dev_eks;
}

abbrev ask : GrantAccessRequest
ask = record {
  cluster_access = alice_access;
  cluster = dev_cluster;
  user_email = codes "alice@example.com";
  permissions = codes "view" ∷ [];
  namespaces = codes "shop" ∷ [];
  jit_role_arn = codes "arn:aws:iam::123456789012:role/JITAccessRole";
  assume_role_arn = [];
}

abbrev pub handed_out : AccessCredentials
handed_out = record {
  temporary_credentials = session;
  kube_config = generate_kube_config dev_eks session (codes "us-east-1");
  cluster_endpoint = codes "https://dev";
  expires_at = pos 3600;
}

abbrev granted : List (EntryKey × AccessEntry)
granted = (grant_access entries at_noon ask []).0

ask-granted : grant_access entries at_noon ask [] ≡ (granted, ok handed_out)
unfolding grant_access grant_entry create_jit_access_entry create_access_entry lookup
ask-granted = refl

pub differs : (s t : Bytes) → str_eq s t ≡ false → s ≢ t
differs s t h e = let same = (str_eq_iff s t).1 e in cc

later : codes "20240101-120000" ≢ codes "20240101-160000"
later = differs (codes "20240101-120000") (codes "20240101-160000") (unfold str_eq in refl)

revoke_misses_example :
    (entry : AccessEntry) × (entries.entry_at
        (grant_key entries (codes "20240101-120000") ask)
        granted
      ≡ some entry)
    × (entries.entry_at (grant_key entries (codes "20240101-120000") ask) (
          state_after granted (
            revoke_access entries willing
              (codes "20240101-160000")
              alice_access
              dev_cluster
              ask.jit_role_arn
              granted))
        ≡ some entry)
revoke_misses_example =
    revoke_misses entries at_noon willing (codes "20240101-160000") ask [] granted handed_out
      ask-granted later

revoke_undoes_example :
    (t : List (EntryKey × AccessEntry)) × (revoke_access entries willing
        (codes "20240101-120000")
        alice_access
        dev_cluster
        ask.jit_role_arn
        granted
      ≡ ok t)
    × ((key : EntryKey) → entries.entry_at key t ≡ entries.entry_at key [])
revoke_undoes_example =
    revoke_undoes entries at_noon willing ask [] granted handed_out ask-granted refl

access_policies-IsConfined_example :
    All
      (IsConfined (codes "shop" ∷ []))
      (access_policies (codes "view" ∷ codes "exec" ∷ []) (codes "shop" ∷ []))
access_policies-IsConfined_example =
    access_policies-IsConfined (codes "view" ∷ codes "exec" ∷ []) (codes "shop" ∷ [])
      (unfold is_any in unfold str_eq in refl)
