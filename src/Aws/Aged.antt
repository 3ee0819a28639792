-- ===== src/Aws/Aged.antt =====
-- The listing and the removal of old entries in pkg/aws/eks.go, and the policy text of pkg/aws/sts.go.
-- The pages of a listing, the time that EKS has for an entry, and whether it refuses to describe
-- one are answers of EKS.
use jit_bot.Base.{
  Bool, false, ◌||◌, List, [], ◌∷◌, ◌++◌, Option, none, some, Bytes, codes, str_eq, if◌then◌else◌,
}
use jit_bot.Base.Text.{bytes_eq}
use jit_bot.Base.Map.{lookup}
use jit_bot.Base.Int.{ℤ, ◌+ℤ◌, ltb_ℤ}
use jit_bot.Base.Result.{state_after}
use jit_bot.Aws.{EksServer, AwsAnswers, AccessEntry, EntryKey, delete_access_entry}

-- The loop of ListAccessEntries over the pages; `none` is a page that fails.
unfoldable pub list_access_entries : List (Option (List Bytes)) → Option (List Bytes)
list_access_entries [] = some []
list_access_entries (none ∷ pages) = none
list_access_entries (some page ∷ pages) = elim (list_access_entries pages) [
  | none ↦ none
  | some more ↦ some (page ++ more)
]

-- Whether a tag has a value; a missing key has the empty one.
abbrev has_tag : Bytes → Option Bytes → Bool
has_tag value none = str_eq [] value
has_tag value (some v) = str_eq v value

unfoldable pub is_jit_tagged : AccessEntry → Bool
is_jit_tagged entry =
    has_tag (codes "JITAccess") (lookup (codes "Purpose") entry.tags)
    || has_tag (codes "true") (lookup (codes "Temporary") entry.tags)

abbrev key_in : Bytes → Bytes → EntryKey
key_in cluster_name arn = record { cluster = cluster_name; principal = arn }

module _ (eks : EksServer) (answers : AwsAnswers) (refuses_describe : EntryKey → Bool)
    (created_at : EntryKey → eks.State → ℤ) where
  open eks use {State, entry_at}

  -- The entry, without its policies, and the time of its creation; `none` is an error.
  unfoldable pub describe_access_entry : Bytes → Bytes → State → Option (AccessEntry × ℤ)
  describe_access_entry cluster_name arn s =
      let key = key_in cluster_name arn in
      if refuses_describe key then none else elim (entry_at key s) [
        | none ↦ none
        | some entry ↦ some (record entry { access_policies = [] }, created_at key s)
      ]

  abbrev pub described_tagged : Option (AccessEntry × ℤ) → Bool
  unfolding is_jit_tagged
  described_tagged none = false
  described_tagged (some (entry, t)) = is_jit_tagged entry

  -- The loop of ListJITAccessEntries.
  unfoldable pub tagged_entries : Bytes → State → List Bytes → List Bytes
  unfolding is_jit_tagged
  tagged_entries cluster_name s [] = []
  tagged_entries cluster_name s (arn ∷ rest) =
      let kept = tagged_entries cluster_name s rest in
      if described_tagged (describe_access_entry cluster_name arn s) then arn ∷ kept else kept

  abbrev tagged_of : Bytes → State → Option (List Bytes) → Option (List Bytes)
  unfolding tagged_entries
  tagged_of cluster_name s none = none
  tagged_of cluster_name s (some arns) = some (tagged_entries cluster_name s arns)

  unfoldable pub list_jit_access_entries :
      List (Option (List Bytes)) → Bytes → State → Option (List Bytes)
  unfolding tagged_entries
  list_jit_access_entries pages cluster_name s =
      tagged_of cluster_name s (list_access_entries pages)

  -- The test of CleanupExpiredJITEntries on one entry.
  abbrev pub is_aged : ℤ → ℤ → Option (AccessEntry × ℤ) → Bool
  is_aged now max_age none = false
  is_aged now max_age (some (entry, t)) = ltb_ℤ (t +ℤ max_age) now

  -- The body of the loop; the error of a deletion is only logged.
  unfoldable pub remove_aged : ℤ → ℤ → Bytes → Bytes → State → State
  remove_aged now max_age cluster_name arn s =
      if is_aged now max_age (describe_access_entry cluster_name arn s)
      then state_after s (delete_access_entry eks answers cluster_name arn s)
      else s

  unfoldable pub remove_all_aged : ℤ → ℤ → Bytes → List Bytes → State → State
  remove_all_aged now max_age cluster_name [] s = s
  remove_all_aged now max_age cluster_name (arn ∷ rest) s =
      remove_all_aged now max_age cluster_name rest (remove_aged now max_age cluster_name arn s)

  -- `none` where the listing fails.
  unfoldable pub cleanup_expired_jit_entries :
      ℤ → List (Option (List Bytes)) → Bytes → ℤ → State → Option State
  cleanup_expired_jit_entries now pages cluster_name max_age s =
      elim (list_jit_access_entries pages cluster_name s) [
        | none ↦ none
        | some arns ↦ some (remove_all_aged now max_age cluster_name arns s)
      ]

-- The text behind the last cluster name is the end of the policy.
unfoldable pub create_jit_policy : Bytes → Bytes → List Bytes → Bytes
create_jit_policy cluster_name namespace permissions =
    codes
      "{\n  \"Version\": \"2012-10-17\",\n  \"Statement\": [\n    {\n      \"Effect\": \"Allow\",\n      \"Action\": [\n        \"eks:DescribeCluster\",\n        \"eks:ListClusters\"\n      ],\n      \"Resource\": \"*\"\n    },\n    {\n      \"Effect\": \"Allow\",\n      \"Action\": [\n        \"eks:AccessKubernetesApi\"\n      ],\n      \"Resource\": \"arn:aws:eks:*:*:cluster/"
    ++ (cluster_name ++ codes "\"\n    }\n  ]\n}")
