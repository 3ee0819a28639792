-- ===== src/Tests/Sweeps.antt =====
-- A cleanup on a server that keeps its entries in an association list.
use jit_bot.Base.{
  ◌≡◌, refl, true, List, [], ◌∷◌, Option, none, some, Bytes, codes, str_eq, contains_text,
  has_prefix, join,
}
use jit_bot.Base.Int.{pos}
use jit_bot.Aws.{EntryKey, AccessEntry, generate_jit_session_name}
use jit_bot.Aws.Memory.{entries}
use jit_bot.Access.{is_jit_entry, split, extract_role_name, principal_arn}
use jit_bot.Webhook.Validation.{contains}
use jit_bot.Cleanup.Sessions.{lacks_byte-Lacks, extract_session_info-generate}
use jit_bot.Cleanup.{SessionInfo, extract_session_info, session_of, cleanup_cluster_access}
use jit_bot.Cleanup.Sweep.{cleanup_removes_every_session}
use jit_bot.Tests.Tables.{dev_cluster}
use jit_bot.Tests.Cloud.{willing}

abbrev alice_arn : Bytes
alice_arn = codes "arn:aws:sts::1:assumed-role/R/jit-alice-dev-20240101-120000"

abbrev alice_session : SessionInfo
alice_session = record {
  session_name = codes "jit-alice-dev-20240101-120000";
  user_id = codes "alice";
  cluster_id = codes "dev";
  timestamp = codes "20240101-120000";
}

abbrev alice_entry : AccessEntry
alice_entry = record {
  cluster_name = codes "dev-cluster";
  principal_arn = alice_arn;
  username = codes "jit:alice";
  groups = [];
  access_policies = [];
  tags = [];
}

abbrev alice_key : EntryKey
alice_key = record { cluster = codes "dev-cluster"; principal = alice_arn }

abbrev listing_alice : Bytes → List (EntryKey × AccessEntry) → Option (List Bytes)
listing_alice name s = some (alice_arn ∷ [])

alice_is_listed : contains (alice_arn ∷ []) alice_arn ≡ true
unfolding contains str_eq
alice_is_listed = refl

alice_is_jit : is_jit_entry alice_arn ≡ true
unfolding is_jit_entry contains_text has_prefix
alice_is_jit = refl

alice_has_session : extract_session_info alice_arn ≡ some alice_session
unfolding extract_session_info session_of contains_text has_prefix split join
alice_has_session = refl

cleanup_removes_every_session_example :
    entries.entry_at alice_key (
      cleanup_cluster_access entries willing listing_alice
        (pos 5)
        dev_cluster
        ((alice_key, alice_entry) ∷ []))
    ≡ none
cleanup_removes_every_session_example =
    cleanup_removes_every_session entries willing listing_alice (pos 5) dev_cluster (alice_arn ∷ [])
      alice_arn alice_session ((alice_key, alice_entry) ∷ []) refl alice_is_listed alice_is_jit
      alice_has_session refl

extract_session_info-generate_example :
    extract_session_info (
      principal_arn
        (codes "123456789012")
        (codes "arn:aws:iam::123456789012:role/JITAccessRole")
        (generate_jit_session_name (codes "20240101-120000") (codes "alice") (codes "dev")))
    ≡ some (record {
      session_name =
          generate_jit_session_name (codes "20240101-120000") (codes "alice") (codes "dev");
      user_id = codes "alice";
      cluster_id = codes "dev";
      timestamp = codes "20240101-120000";
    })
extract_session_info-generate_example =
    extract_session_info-generate (codes "123456789012")
      (codes "arn:aws:iam::123456789012:role/JITAccessRole") (codes "20240101-120000")
      (codes "alice") (codes "dev") (lacks_byte-Lacks b'/' (codes "123456789012") refl)
      (unfold generate_jit_session_name in
        lacks_byte-Lacks b'/' (codes "jit-alice-dev-20240101-120000") refl)
      (lacks_byte-Lacks b'-' (codes "alice") refl) (lacks_byte-Lacks b'-' (codes "dev") refl)

-- A cluster with a dash in its name is cut short.
dashed_cluster :
    extract_session_info (
      principal_arn
        (codes "123456789012")
        (codes "arn:aws:iam::123456789012:role/JITAccessRole")
        (generate_jit_session_name (codes "20240101-120000") (codes "alice") (codes "dev-1")))
    ≡ some (record {
      session_name = codes "jit-alice-dev-1-20240101-120000";
      user_id = codes "alice";
      cluster_id = codes "dev";
      timestamp = codes "1-20240101-120000";
    })
unfolding extract_session_info session_of contains_text has_prefix split join principal_arn
    extract_role_name generate_jit_session_name
dashed_cluster = refl
