-- ===== src/Access/Revoke.antt =====
-- Whether RevokeAccess of pkg/kubernetes/access.go finds the entry that GrantAccess made: both
-- compute its principal from the time of their own call.
use jit_bot.Base.{
  ◌≡◌, ◌≢◌, refl, sym, ap, ◌∙◌, inl, inr, false, ◌++◌, Option, none, some, Bytes, codes, Bool-cases,
  Option-cases,
}
use jit_bot.Base.Map.{beq_refl}
use jit_bot.Base.Result.{Result, ok, err, Result-cases, state_after}
use jit_bot.Aws.{
  EksServer, AwsAnswers, AwsError, AccessEntry, EntryKey, entry_eq, entry_key_eq, entry_key_eq_iff,
  create_access_entry, associate_all, delete_access_entry, create_jit_access_entry,
}
use jit_bot.Access.{
  GrantAccessRequest, AccessCredentials, GrantAnswers, grant_principal, grant_entry, grant_access,
  revoke_access,
}
use jit_bot.Access.Names.{session_name_inj, principal_arn_inj}

-- A key of a store and another one.
other_key : (i j : EntryKey) → i ≢ j → entry_key_eq i j ≡ false
other_key i j h = elim (Bool-cases (entry_key_eq i j)) [
  | inl e ↦ absurd (h ((entry_key_eq_iff i j).0 e))
  | inr e ↦ e
]

module _ (eks : EksServer) where
  open eks use {State, entry_at, put_entry}

  -- Where the entry of a grant at a given time is kept.
  abbrev pub grant_key : Bytes → GrantAccessRequest → EntryKey
  grant_key timestamp req = record {
    cluster = req.cluster.name;
    principal = grant_principal eks timestamp req;
  }

  entry_at_self :
      (i : EntryKey) (e : Option AccessEntry) (s : State) → entry_at i (put_entry i e s) ≡ e
  entry_at_self i e s = rw (eks.entry_at_put_entry i i e s) (rw (beq_refl i))

  -- What a state is after an entry has been created: the key was free, and the entry is there.
  abbrev IsCreated : EntryKey → State → State → Type 0
  IsCreated key s s' = (e : AccessEntry) × (s' ≡ put_entry key (some e) s) × (entry_at key s ≡ none)

  abbrev key_of : AccessEntry → EntryKey
  key_of entry = record { cluster = entry.cluster_name; principal = entry.principal_arn }

  create_access_entry-IsCreated :
      (answers : AwsAnswers) (entry : AccessEntry) (s s' : State)
      → create_access_entry eks answers entry s ≡ ok s'
      → IsCreated (key_of entry) s s'
  unfolding create_access_entry
  create_access_entry-IsCreated answers entry s s' h = elim (Bool-cases answers.refuses_create) [
    | inl e ↦ absurd (cc (rw (e, create_access_entry) at h))
    | inr e ↦ elim (Option-cases (entry_at (key_of entry) s)) [
      | inl free ↦ (
        record entry { access_policies = associate_all eks answers entry.access_policies },
        cc (rw (e, free, create_access_entry) at h),
        free,
      )
      | inr (old, taken) ↦ absurd (cc (rw (e, taken, create_access_entry) at h))
    ]
  ]

  -- The call of CreateJITAccessEntry in GrantAccess.
  abbrev grant_call : GrantAnswers → GrantAccessRequest → State → Result AwsError State
  grant_call answers req s =
      create_jit_access_entry eks answers.aws answers.created_at req.cluster.name
        (grant_principal eks answers.timestamp req) (codes "jit:" ++ req.cluster_access.user_id)
        req.permissions req.namespaces s

  call_entry :
      (answers : GrantAnswers) (req : GrantAccessRequest) (s s' : State)
      → grant_call answers req s ≡ ok s'
      → IsCreated (grant_key answers.timestamp req) s s'
  unfolding create_jit_access_entry
  call_entry answers req s s' h = create_access_entry-IsCreated answers.aws _ s s' h

  granted_entry :
      (answers : GrantAnswers) (req : GrantAccessRequest) (s s' : State) (c : AccessCredentials)
      → grant_access eks answers req s ≡ (s', ok c)
      → IsCreated (grant_key answers.timestamp req) s s'
  unfolding grant_access grant_entry
  granted_entry answers req s s' c h = elim (Option-cases answers.assume_role) [
    | inl e ↦ absurd (cc (rw (e, grant_access) at h))
    | inr (creds, e) ↦ elim (Result-cases (grant_call answers req s)) [
      | inr (x, f) ↦ absurd (cc (rw (e, grant_access, grant_entry, f) at h))
      | inl (t, f) ↦ elim (Option-cases answers.describe_cluster) [
        | inl g ↦ absurd (cc (rw (e, grant_access, grant_entry, f, g) at h))
        | inr (k, g) ↦
            let same : t ≡ s' = cc (rw (e, grant_access, grant_entry, f, g) at h) in
            call_entry answers req s s' (f ∙ ap ok same)
      ]
    ]
  ]

  deleted_entry :
      (answers : AwsAnswers) (key : EntryKey) (s t : State)
      → delete_access_entry eks answers key.cluster key.principal s ≡ ok t
      → t ≡ put_entry key none s
  unfolding delete_access_entry
  deleted_entry answers key s t h = elim (Bool-cases answers.refuses_delete) [
    | inl e ↦ absurd (cc (rw (e, delete_access_entry) at h))
    | inr e ↦ elim (Option-cases (entry_at key s)) [
      | inl free ↦ absurd (cc (rw (e, free, delete_access_entry) at h))
      | inr (old, taken) ↦ cc (rw (e, taken, delete_access_entry) at h)
    ]
  ]

  -- The grants of one request at two times have two keys.
  grant_key_inj :
      (req : GrantAccessRequest) (t u : Bytes) → grant_key t req ≡ grant_key u req → t ≡ u
  unfolding grant_principal
  grant_key_inj req t u h = session_name_inj req.cluster_access.user_id req.cluster.id (
      principal_arn_inj req.cluster.aws_account req.jit_role_arn
        (ap (λ (k : EntryKey). k.principal) h))

  revoked_entry :
      (answers : AwsAnswers) (timestamp : Bytes) (req : GrantAccessRequest) (s t : State)
      → revoke_access eks answers timestamp req.cluster_access req.cluster req.jit_role_arn s ≡ ok t
      → t ≡ put_entry (grant_key timestamp req) none s
  unfolding revoke_access grant_principal
  revoked_entry answers timestamp req s t h = deleted_entry answers (grant_key timestamp req) s t h

  revoke_finds :
      (answers : AwsAnswers) (timestamp : Bytes) (req : GrantAccessRequest) (s : State)
      (e : AccessEntry)
      → entry_at (grant_key timestamp req) s ≡ some e
      → answers.refuses_delete ≡ false
      → revoke_access eks answers timestamp req.cluster_access req.cluster req.jit_role_arn s
        ≡ ok (put_entry (grant_key timestamp req) none s)
  unfolding revoke_access grant_principal
  revoke_finds answers timestamp req s e taken allowed =
      unfold delete_access_entry in rw (allowed, taken, delete_access_entry)

  -- A write of nothing over a new entry is a write of nothing.
  free_again :
      (key j : EntryKey) (e : AccessEntry) (s : State)
      → entry_at key s ≡ none
      → entry_at j (put_entry key none (put_entry key (some e) s)) ≡ entry_at j s
  free_again key j e s free = elim (Bool-cases (entry_key_eq key j)) [
    | inl same ↦
        eks.entry_at_put_entry key j none (put_entry key (some e) s)
        ∙ rw same (sym free ∙ ap (λ (i : EntryKey). entry_at i s) ((entry_key_eq_iff key j).0 same))
    | inr other ↦
        eks.entry_at_put_entry key j none (put_entry key (some e) s)
        ∙ rw other (eks.entry_at_put_entry key j (some e) s ∙ rw other refl)
  ]

-- What holds before a call and after its success holds after the call.
after_call :
    (eks : EksServer) (P : eks.State → Type 0) (s : eks.State) (r : Result AwsError eks.State)
    → P s
    → ((t : eks.State) → r ≡ ok t → P t)
    → P (state_after s r)
after_call eks P s (ok t) before after = after t refl
after_call eks P s (err e) before after = before

-- A revocation at another time keeps the entry of a grant.
pub revoke_keeps :
    (eks : EksServer) (aws : AwsAnswers) (granted_at timestamp : Bytes) (req : GrantAccessRequest)
    (s : eks.State) (entry : AccessEntry)
    → eks.entry_at (grant_key eks granted_at req) s ≡ some entry
    → granted_at ≢ timestamp
    → eks.entry_at (grant_key eks granted_at req) (
        state_after s
          (revoke_access eks aws timestamp req.cluster_access req.cluster req.jit_role_arn s))
      ≡ some entry
revoke_keeps eks aws granted_at timestamp req s entry there late =
    let granted = grant_key eks granted_at req in
    let other =
      other_key (grant_key eks timestamp req) granted
        (λ same. late (grant_key_inj eks req granted_at timestamp (sym same))) in
    after_call eks (λ t. eks.entry_at granted t ≡ some entry) s
      (revoke_access eks aws timestamp req.cluster_access req.cluster req.jit_role_arn s) there
      (λ t r.
        ap (eks.entry_at granted) (revoked_entry eks aws timestamp req s t r)
        ∙ eks.entry_at_put_entry (grant_key eks timestamp req) granted none s
        ∙ rw other there)

-- Where GrantAccess has succeeded, RevokeAccess with a clock that prints another time never removes
-- the entry that was granted: the entry is there after the grant, and it is still there after the
-- revocation, whether that returns an error or not.
pub revoke_misses :
    (eks : EksServer) (answers : GrantAnswers) (aws : AwsAnswers) (timestamp : Bytes)
    (req : GrantAccessRequest) (s s' : eks.State) (c : AccessCredentials)
    → grant_access eks answers req s ≡ (s', ok c)
    → answers.timestamp ≢ timestamp
    → (entry : AccessEntry) × (eks.entry_at (grant_key eks answers.timestamp req) s' ≡ some entry)
      × (eks.entry_at (grant_key eks answers.timestamp req) (
            state_after s'
              (revoke_access eks aws timestamp req.cluster_access req.cluster req.jit_role_arn s'))
          ≡ some entry)
revoke_misses eks answers aws timestamp req s s' c h late =
    let (entry, is_put, free) = granted_entry eks answers req s s' c h in
    let granted = grant_key eks answers.timestamp req in
    let there = ap (eks.entry_at granted) is_put ∙ entry_at_self eks granted (some entry) s in
    (entry, there, revoke_keeps eks aws answers.timestamp timestamp req s' entry there late)

-- Where GrantAccess has succeeded and AWS does not refuse the deletion, RevokeAccess with a clock
-- that still prints the time of the grant succeeds, and leaves the entries as they were before the
-- grant.
pub revoke_undoes :
    (eks : EksServer) (answers : GrantAnswers) (aws : AwsAnswers) (req : GrantAccessRequest)
    (s s' : eks.State) (c : AccessCredentials)
    → grant_access eks answers req s ≡ (s', ok c)
    → aws.refuses_delete ≡ false
    → (t : eks.State) × (revoke_access eks aws answers.timestamp req.cluster_access req.cluster
          req.jit_role_arn s'
        ≡ ok t)
      × ((key : EntryKey) → eks.entry_at key t ≡ eks.entry_at key s)
revoke_undoes eks answers aws req s s' c h allowed =
    let (entry, is_put, free) = granted_entry eks answers req s s' c h in
    let granted = grant_key eks answers.timestamp req in
    let there = ap (eks.entry_at granted) is_put ∙ entry_at_self eks granted (some entry) s in
    (
      eks.put_entry granted none s',
      revoke_finds eks aws answers.timestamp req s' entry there allowed,
      λ key.
          ap (λ (x : eks.State). eks.entry_at key (eks.put_entry granted none x)) is_put
          ∙ free_again eks granted key entry s free,
    )
