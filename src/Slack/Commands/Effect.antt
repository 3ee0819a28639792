-- ===== src/Slack/Commands/Effect.antt =====
-- What HandleJITCommand of pkg/slack/commands.go does to the store.
use jit_bot.Base.{
  ◌≡◌, refl, ap, ◌⊎◌, inl, inr, true, false, List, [], ◌∷◌, ◌++◌, none, some, Bytes, codes,
  Bool-cases, Option-cases, arith, join, str_eq, str_eq_iff,
}
use jit_bot.Base.Text.{bytes_eq}
use jit_bot.Base.Map.{lookup, insert}
use jit_bot.Base.Int.{ℤ}
use jit_bot.Models.{Cluster, AccessStatus}
use jit_bot.Auth.{Rbac}
use jit_bot.Store.{MemoryStore, get_cluster, create_access}
use jit_bot.Slack.{SlackCommand}
use jit_bot.Slack.Commands.{
  Message, submitted, fields, requested_access, request_on, handle_request_access, run_subcommand,
  run_fields, handle_jit_command,
}

module _ (rbac : Rbac) (now : ℤ) (fresh_id : Bytes) (cmd : SlackCommand) where
  -- A request for an enabled cluster, which is stored.
  pub record IsSubmitted (words : List Bytes) (store store' : MemoryStore) (message : Message)
      : Type 0 where
    pub cluster_id : Bytes
    pub word : Bytes
    pub rest : List Bytes
    pub cluster : Cluster
    pub asked : words ≡ codes "request" ∷ cluster_id ∷ word ∷ rest
    pub known : lookup cluster_id store.clusters ≡ some cluster
    pub enabled : cluster.enabled ≡ true
    pub fresh : lookup fresh_id store.accesses ≡ none
    pub stored : store' ≡ record store {
      accesses =
          insert fresh_id
            (record {
              id = fresh_id;
              cluster_id = cluster_id;
              user_id = cmd.user_id;
              user_email = cmd.user_name ++ codes "@company.com";
              reason = join (word ∷ rest) (codes " ");
              duration = cluster.max_duration;
              status = AccessStatus.pending;
              approved_by = [];
              requested_at = now;
              approved_at = none;
              expires_at = none;
              revoked_at = none;
              revoked_by = [];
              revoke_reason = [];
            })
            store.accesses;
    }
    pub answered :
        message
        ≡ submitted (record {
          request_id = fresh_id;
          display_name = cluster.display_name;
          duration = cluster.max_duration;
          reason = join (word ∷ rest) (codes " ");
        })

  -- The effect of a command: none, or one submitted request.
  abbrev Effect : List Bytes → MemoryStore → MemoryStore × Message → Type 0
  Effect words store (store', message) = (store' ≡ store) ⊎ IsSubmitted words store store' message

  request_on-Effect :
      (cluster_id word : Bytes) (rest : List Bytes) (cluster : Cluster) (store : MemoryStore)
      → lookup cluster_id store.clusters ≡ some cluster
      → let r =
          request_on rbac now fresh_id cmd cluster_id
            (join (word ∷ rest) (codes " "))
            cluster
            store in
        (r.0 ≡ store) ⊎ IsSubmitted (codes "request" ∷ cluster_id ∷ word ∷ rest) store r.0 r.1
  unfolding request_on create_access requested_access
  request_on-Effect cluster_id word rest cluster store known = elim (Bool-cases cluster.enabled) [
    | inr e ↦ rw (e, request_on) (inl refl)
    | inl e ↦ elim (Option-cases (lookup fresh_id store.accesses)) [
      | inr (old, f) ↦ rw (e, f, request_on, create_access) (inl refl)
      | inl f ↦
          rw (e, f, request_on, create_access)
            (inr (record {
              cluster_id = cluster_id;
              word = word;
              rest = rest;
              cluster = cluster;
              asked = refl;
              known = known;
              enabled = e;
              fresh = f;
              stored = refl;
              answered = refl;
            }))
    ]
  ]

  request-Effect :
      (args : List Bytes) (store : MemoryStore)
      → let r = handle_request_access rbac now fresh_id cmd args store in
        (r.0 ≡ store) ⊎ IsSubmitted (codes "request" ∷ args) store r.0 r.1
  unfolding handle_request_access get_cluster
  request-Effect [] store = inl refl
  request-Effect (cluster_id ∷ []) store = inl refl
  request-Effect (cluster_id ∷ word ∷ rest) store =
      elim (Option-cases (lookup cluster_id store.clusters)) [
        | inl e ↦ rw (e, handle_request_access, get_cluster) (inl refl)
        | inr (cluster, e) ↦
            rw (e, handle_request_access, get_cluster)
              (request_on-Effect cluster_id word rest cluster store e)
      ]

  other_subcommand :
      (sub : Bytes) (args : List Bytes) (store : MemoryStore)
      → str_eq sub (codes "request") ≡ false
      → (run_subcommand rbac now fresh_id cmd sub args store).0 ≡ store
  unfolding run_subcommand
  other_subcommand sub args store e = ground arith

  words-Effect :
      (words : List Bytes) (store : MemoryStore)
      → let r = run_fields rbac now fresh_id cmd words store in
        (r.0 ≡ store) ⊎ IsSubmitted words store r.0 r.1
  unfolding run_subcommand
  words-Effect [] store = inl refl
  words-Effect (sub ∷ args) store = elim (Bool-cases (str_eq sub (codes "request"))) [
    | inl e ↦
        let same = (str_eq_iff sub (codes "request")).0 e in
        rw (e, run_subcommand) (rw (ap (λ (s : Bytes). s ∷ args) same) (request-Effect args store))
    | inr e ↦ inl (other_subcommand sub args store e)
  ]

-- A /jit command, whatever its text, leaves the store as it was, or it is `request`, a stored and enabled
-- cluster and a reason, and stores one access under a new identifier: pending, requested now, of the user
-- who sent it with the address of that name at company.com, for the longest time that the cluster allows.
pub handle_jit_command-Effect :
    (rbac : Rbac) (now : ℤ) (fresh_id : Bytes) (cmd : SlackCommand) (store : MemoryStore)
    → let r = handle_jit_command rbac now fresh_id cmd store in
      (r.0 ≡ store) ⊎ IsSubmitted rbac now fresh_id cmd (fields cmd.text) store r.0 r.1
unfolding handle_jit_command
handle_jit_command-Effect rbac now fresh_id cmd store =
    words-Effect rbac now fresh_id cmd (fields cmd.text) store
