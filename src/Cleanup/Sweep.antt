-- ===== src/Cleanup/Sweep.antt =====
-- Which entries a cleanup of a cluster removes (cleanupClusterAccess of pkg/kubernetes/cleanup.go).
use jit_bot.Base.{
  ◌≡◌, refl, ap, ◌∙◌, inl, inr, true, false, List, [], ◌∷◌, Option, none, some, Bytes, Bool-cases,
  Option-cases, str_eq, str_eq_iff,
}
use jit_bot.Base.Int.{ℤ}
use jit_bot.Base.Map.{beq_refl}
use jit_bot.Models.{Cluster}
use jit_bot.Aws.{EksServer, AwsAnswers, EntryKey, entry_eq, entry_key_eq, delete_access_entry}
use jit_bot.Access.{is_jit_entry}
use jit_bot.Webhook.Validation.{contains}
use jit_bot.Cleanup.{
  SessionInfo, extract_session_info, find_access_by_session, jit_entries, list_active_access,
  delete_logged, cleanup_access, cleanup_entry, cleanup_entries, cleanup_cluster_access,
}

contains-jit_entries :
    (arns : List Bytes) (arn : Bytes)
    → contains arns arn ≡ true
    → is_jit_entry arn ≡ true
    → contains (jit_entries arns) arn ≡ true
unfolding contains jit_entries
contains-jit_entries [] arn h j = h
contains-jit_entries (a ∷ arns) arn h j = elim (Bool-cases (str_eq a arn)) [
  | inl e ↦ let same = (str_eq_iff a arn).0 e in rw (ap is_jit_entry same ∙ j) (rw e refl)
  | inr e ↦
      let ih = contains-jit_entries arns arn (rw e at h) j in
      elim (Bool-cases (is_jit_entry a)) [ inl f ↦ rw f (rw e ih) | inr f ↦ rw f ih ]
]

module _ (eks : EksServer) (answers : AwsAnswers)
    (listing : Bytes → eks.State → Option (List Bytes)) where
  open eks use {State, entry_at, put_entry}

  delete_removes :
      (key : EntryKey) (s : State)
      → answers.refuses_delete ≡ false
      → entry_at key (delete_logged eks answers listing key.cluster key.principal s) ≡ none
  unfolding delete_logged delete_access_entry
  delete_removes key s allowed = elim (Option-cases (entry_at key s)) [
    | inl free ↦ rw (allowed, free, delete_access_entry) free
    | inr (old, taken) ↦
        rw (allowed, taken, delete_access_entry)
          (eks.entry_at_put_entry key key none s ∙ rw (beq_refl key))
  ]

  delete_keeps_none :
      (i key : EntryKey) (s : State)
      → entry_at key s ≡ none
      → entry_at key (delete_logged eks answers listing i.cluster i.principal s) ≡ none
  unfolding delete_logged delete_access_entry
  delete_keeps_none i key s h = elim (Bool-cases answers.refuses_delete) [
    | inl e ↦ rw (e, delete_access_entry) h
    | inr e ↦ elim (Option-cases (entry_at i s)) [
      | inl free ↦ rw (e, free, delete_access_entry) h
      | inr (old, taken) ↦
          rw (e, taken, delete_access_entry)
            (eks.entry_at_put_entry i key none s ∙ elim (Bool-cases (entry_key_eq i key)) [
              | inl same ↦ rw same refl
              | inr other ↦ rw other h
            ])
    ]
  ]

  abbrev key_in : Cluster → Bytes → EntryKey
  key_in cluster arn = record { cluster = cluster.name; principal = arn }

  entry_removes :
      (now : ℤ) (cluster : Cluster) (arn : Bytes) (info : SessionInfo) (s : State)
      → extract_session_info arn ≡ some info
      → answers.refuses_delete ≡ false
      → entry_at (key_in cluster arn) (cleanup_entry eks answers listing now cluster arn s) ≡ none
  unfolding cleanup_entry find_access_by_session cleanup_access
  entry_removes now cluster arn info s h allowed =
      rw (h, cleanup_entry) (delete_removes (key_in cluster arn) s allowed)

  entry_keeps_none :
      (now : ℤ) (cluster : Cluster) (a : Bytes) (key : EntryKey) (s : State)
      → entry_at key s ≡ none
      → entry_at key (cleanup_entry eks answers listing now cluster a s) ≡ none
  unfolding cleanup_entry find_access_by_session cleanup_access
  entry_keeps_none now cluster a key s h = elim (Option-cases (extract_session_info a)) [
    | inl e ↦ rw (e, cleanup_entry) h
    | inr (info, e) ↦ rw (e, cleanup_entry) (delete_keeps_none (key_in cluster a) key s h)
  ]

  entries_keep_none :
      (now : ℤ) (cluster : Cluster) (arns : List Bytes) (key : EntryKey) (s : State)
      → entry_at key s ≡ none
      → entry_at key (cleanup_entries eks answers listing now cluster arns s) ≡ none
  unfolding cleanup_entries
  entries_keep_none now cluster [] key s h = h
  entries_keep_none now cluster (a ∷ arns) key s h =
      entries_keep_none now cluster arns key _ (entry_keeps_none now cluster a key s h)

  entries_remove :
      (now : ℤ) (cluster : Cluster) (arns : List Bytes) (arn : Bytes) (info : SessionInfo)
      (s : State)
      → contains arns arn ≡ true
      → extract_session_info arn ≡ some info
      → answers.refuses_delete ≡ false
      → entry_at (key_in cluster arn) (cleanup_entries eks answers listing now cluster arns s)
        ≡ none
  unfolding cleanup_entries contains
  entries_remove now cluster [] arn info s m h allowed = cc
  entries_remove now cluster (a ∷ arns) arn info s m h allowed = elim (Bool-cases (str_eq a arn)) [
    | inl e ↦
        let same = (str_eq_iff a arn).0 e in
        entries_keep_none now cluster arns (key_in cluster arn) _ (
          ap
            (λ (x : Bytes).
              entry_at (key_in cluster arn) (cleanup_entry eks answers listing now cluster x s))
            same
          ∙ entry_removes now cluster arn info s h allowed)
    | inr e ↦ entries_remove now cluster arns arn info _ (rw e at m) h allowed
  ]

-- A cleanup of a cluster removes every listed entry of a session whose name has the form of a
-- grant's, whether its access has expired or not, and whatever the clock: the look-up of the access
-- never finds one, so each such entry is deleted as an orphan (where AWS does not refuse it).
pub cleanup_removes_every_session :
    (eks : EksServer) (answers : AwsAnswers) (listing : Bytes → eks.State → Option (List Bytes))
    (now : ℤ) (cluster : Cluster) (arns : List Bytes) (arn : Bytes) (info : SessionInfo)
    (s : eks.State)
    → listing cluster.name s ≡ some arns
    → contains arns arn ≡ true
    → is_jit_entry arn ≡ true
    → extract_session_info arn ≡ some info
    → answers.refuses_delete ≡ false
    → eks.entry_at
        (record { cluster = cluster.name; principal = arn })
        (cleanup_cluster_access eks answers listing now cluster s)
      ≡ none
unfolding cleanup_cluster_access list_active_access
cleanup_removes_every_session eks answers listing now cluster arns arn info s listed m j h allowed =
    rw (listed, cleanup_cluster_access, list_active_access)
      (entries_remove eks answers listing now cluster (jit_entries arns) arn info s
        (contains-jit_entries arns arn m j) h allowed)
