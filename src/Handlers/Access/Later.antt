-- ===== src/Handlers/Access/Later.antt =====
-- A revocation over HTTP of an access that was granted over HTTP (internal/handlers/access.go with
-- pkg/kubernetes/access.go).
use mathlib.Core.Path.{subst}
use jit_bot.Base.{◌≡◌, ◌≢◌, inl, inr, true, List, Option, some, Bytes, Bool-cases, Option-cases}
use jit_bot.Base.Text.{bytes_eq}
use jit_bot.Base.Map.{lookup, lookup-insert_self}
use jit_bot.Base.Result.{Result-cases, state_after}
use jit_bot.Models.{Cluster, ClusterAccess, AccessStatus}
use jit_bot.Auth
use jit_bot.Store.{MemoryStore, get_cluster, get_cluster_access, get_access, update_cluster_access}
use jit_bot.Aws.{EksServer, AccessEntry, entry_eq}
use jit_bot.Access
use jit_bot.Access.Revoke.{grant_key, revoke_misses}
use jit_bot.Webhook.Duration.{is_nil}
use jit_bot.Handlers.{HttpRequest, World, Decoders, AccessResponse, Server}
use jit_bot.Handlers.Access.{
  new_access, manager_request, role_arn, may_touch, revoke_on, revoke_checked,
  revoke_access_handler,
}
use jit_bot.Handlers.Access.Grant.{IsGranted, manager_request-asked_grant}

module _ (eks : EksServer) (lib : Decoders) (listing : Bytes → eks.State → Option (List Bytes))
    (world : World) (req : HttpRequest) where
  -- RevokeAccess of the access manager, as the handler calls it.
  abbrev call : ClusterAccess → Cluster → eks.State → eks.State
  call access cluster t = state_after t (
      Access.revoke_access eks world.answers.aws world.timestamp access cluster (role_arn cluster)
        t)

  revoke_on-entries :
      (access : ClusterAccess) (cluster : Cluster) (s : Server eks)
      → (revoke_on eks lib listing world req access cluster s).0.entries
        ≡ call access cluster s.entries
  unfolding revoke_on
  revoke_on-entries access cluster s =
      elim (Result-cases (
        Access.revoke_access eks world.answers.aws world.timestamp access cluster (role_arn cluster)
          s.entries)) [
            | inr (x, e) ↦ rw (e, revoke_on)
            | inl (t, e) ↦
                elim (Result-cases (
                  update_cluster_access s.store (record access {
                    status = AccessStatus.revoked;
                    revoked_at = some world.now;
                  }))) [ inr (x, f) ↦ rw (e, f, revoke_on) | inl (store, f) ↦ rw (e, f, revoke_on) ]
          ]

  -- What holds of the entries before a revocation and after the call of the access manager, holds
  -- after it.
  revoke_handler-keeps :
      (P : eks.State → Type 0) (id : Bytes) (access : ClusterAccess) (cluster : Cluster)
      (s : Server eks)
      → lib.decode_revoke req.body ≡ some id
      → lookup id s.store.accesses ≡ some access
      → lookup access.cluster_id s.store.clusters ≡ some cluster
      → P s.entries
      → P (call access cluster s.entries)
      → P (revoke_access_handler eks lib listing world req s).0.entries
  unfolding revoke_access_handler revoke_checked get_cluster_access get_access get_cluster
  revoke_handler-keeps P id access cluster s d a c before after =
      elim (Bool-cases (is_nil req.user_id)) [
        | inl u ↦ rw (u, revoke_access_handler) before
        | inr u ↦
            elim (Option-cases
              (may_touch eks lib listing world req s.rbac Auth.revoke_access access)) [
                | inr (x, f) ↦
                    rw (u, d, a, f, revoke_access_handler, revoke_checked, get_access) before
                | inl f ↦
                    rw
                      (
                        u, d, a, f, c, revoke_access_handler, revoke_checked, get_access,
                        get_cluster,
                      )
                      (rw (revoke_on-entries access cluster s) after)
              ]
      ]

-- Where GrantAccess has granted with the handler's own role, a RevokeAccess of that access at a time that
-- prints differently never removes the entry in EKS, whoever asks and whatever AWS answers: the entry is
-- there after the grant and still there after the revocation.
pub later_revocation_keeps_entry :
    (eks : EksServer) (lib : Decoders) (listing : Bytes → eks.State → Option (List Bytes))
    (world later : World) (req req' : HttpRequest) (s : Server eks) (entries : eks.State)
    (store : MemoryStore) (response : AccessResponse)
    (g : IsGranted eks lib listing world req s entries store response)
    → is_nil g.body.jit_role_arn ≡ true
    → lib.decode_revoke req'.body ≡ some world.fresh_id
    → world.answers.timestamp ≢ later.timestamp
    → let key = grant_key eks world.answers.timestamp (
        manager_request (new_access world.now world.fresh_id g.duration g.body) g.cluster g.body) in
      (entry : AccessEntry) × (eks.entry_at key entries ≡ some entry)
      × (eks.entry_at key
            (revoke_access_handler eks lib listing later req'
              (record s { store = store; entries = entries })).0.entries
          ≡ some entry)
unfolding manager_request new_access
later_revocation_keeps_entry eks lib listing world later req req' s entries store response g role d
      late =
    let access = new_access world.now world.fresh_id g.duration g.body in
    let asked = manager_request access g.cluster g.body in
    let key = grant_key eks world.answers.timestamp asked in
    let (entry, there, kept) =
      revoke_misses eks world.answers later.answers.aws later.timestamp asked s.entries entries
        g.creds
        (rw (manager_request-asked_grant eks lib listing world req g.body g.cluster g.duration)
          g.granted)
        late in
    let own_role : asked.jit_role_arn ≡ role_arn g.cluster = rw role in
    let after =
      subst
        (λ arn.
          eks.entry_at key (
            state_after entries (
              Access.revoke_access eks later.answers.aws later.timestamp access g.cluster arn
                entries))
          ≡ some entry)
        own_role kept in
    (
      entry,
      there,
      revoke_handler-keeps eks lib listing later req' (λ t. eks.entry_at key t ≡ some entry)
          world.fresh_id access g.cluster (record s { store = store; entries = entries }) d
          (rw g.stored (lookup-insert_self world.fresh_id access s.store.accesses))
          (rw g.stored g.known) there after,
    )
