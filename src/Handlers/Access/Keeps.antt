-- ===== src/Handlers/Access/Keeps.antt =====
-- What the handlers of internal/handlers/access.go leave alone: the roles and the clusters.
use jit_bot.Base.{
  ◌≡◌, refl, sym, ap, ◌∙◌, inl, inr, ◌&&◌, List, [], ◌∷◌, Option, some, Bytes, Bool-cases,
  Option-cases,
}
use jit_bot.Base.Text.{bytes_eq}
use jit_bot.Base.Map.{lookup, insert}
use jit_bot.Base.Int.{ℤ, ltb_ℤ}
use jit_bot.Base.Result.{Result, ok, err, Result-cases}
use jit_bot.Models.{Cluster, ClusterAccess, AccessStatus}
use jit_bot.Auth.{
  Permission, create_requests, view_requests, manage_clusters, manage_users, validate_permission,
}
use jit_bot.Auth
use jit_bot.Store.{
  MemoryStore, get_cluster, create_cluster_access, create_access, get_cluster_access,
  update_cluster_access,
}
use jit_bot.Aws.{EksServer}
use jit_bot.Access
use jit_bot.Access.{AccessCredentials, GrantError, grant_access}
use jit_bot.Handlers.{HttpRequest, World, Decoders, GrantBody, Server}
use jit_bot.Handlers.Access.{
  lacks_field, role_arn, store_grant, grant_for, grant_checked, may_touch, revoke_on,
  revoke_checked, is_past, is_active,
}
use jit_bot.Handlers.Access.Views.{
  is_stale, with_status, store_or, expire_stale, cleanup_expired_access, cleanup_of, report_status,
  status_of,
}

-- Operations on accesses leave the clusters alone.
update_access_clusters :
    (store : MemoryStore) (access : ClusterAccess)
    → (store_or store (update_cluster_access store access)).clusters ≡ store.clusters
unfolding update_cluster_access
update_access_clusters store access = elim (Option-cases (lookup access.id store.accesses)) [
  | inl e ↦ rw (e, update_cluster_access)
  | inr (old, e) ↦ rw (e, update_cluster_access)
]

updated_clusters :
    (store store' : MemoryStore) (access : ClusterAccess)
    → update_cluster_access store access ≡ ok store'
    → store'.clusters ≡ store.clusters
updated_clusters store store' access e = rw e at (update_access_clusters store access)

created_clusters :
    (store store' : MemoryStore) (access : ClusterAccess)
    → create_cluster_access store access ≡ ok store'
    → store'.clusters ≡ store.clusters
unfolding create_cluster_access create_access
created_clusters store store' access h = elim (Option-cases (lookup access.id store.accesses)) [
  | inr (old, e) ↦ absurd (cc (rw (e, create_access) at h))
  | inl e ↦
      let same : record store { accesses = insert access.id access store.accesses } ≡ store' =
        cc (rw (e, create_access) at h) in
      ap (λ (m : MemoryStore). m.clusters) (sym same)
]

expire_stale-clusters :
    (now : ℤ) (id : Bytes) (accesses : List ClusterAccess) (store : MemoryStore)
    → (expire_stale now id accesses store).0.clusters ≡ store.clusters
unfolding expire_stale
expire_stale-clusters now id [] store = refl
expire_stale-clusters now id (a ∷ rest) store = elim (Bool-cases (is_stale now id a)) [
  | inr e ↦ rw (e, expire_stale) (expire_stale-clusters now id rest store)
  | inl e ↦ elim (Result-cases (update_cluster_access store (with_status AccessStatus.expired a))) [
    | inr (x, f) ↦ rw (e, f, expire_stale) (expire_stale-clusters now id rest store)
    | inl (store', f) ↦
        rw (e, f, expire_stale)
          (expire_stale-clusters now id rest store' ∙ updated_clusters store store' _ f)
  ]
]

module _ (eks : EksServer) (lib : Decoders) (listing : Bytes → eks.State → Option (List Bytes))
    (world : World) (req : HttpRequest) where
  -- What handlers of accesses leave alone.
  abbrev pub Keeps : Server eks → Server eks → Type 0
  Keeps s t = (t.rbac ≡ s.rbac) × (t.store.clusters ≡ s.store.clusters)

  store_grant-Keeps :
      (access : ClusterAccess) (cluster : Cluster) (s : Server eks)
      (r : eks.State × Result GrantError AccessCredentials)
      → Keeps s (store_grant eks lib listing world req access cluster s r).0
  unfolding store_grant
  store_grant-Keeps access cluster s (t, err e) = (refl, refl)
  store_grant-Keeps access cluster s (t, ok creds) =
      elim (Result-cases (create_cluster_access s.store access)) [
        | inr (x, e) ↦ rw (e, store_grant) (refl, refl)
        | inl (store, e) ↦ rw (e, store_grant) (refl, created_clusters s.store store access e)
      ]

  grant_for-Keeps :
      (body : GrantBody) (cluster : Cluster) (duration : ℤ) (s : Server eks)
      → Keeps s (grant_for eks lib listing world req body cluster duration s).0
  unfolding grant_for
  grant_for-Keeps body cluster duration s =
      elim (Bool-cases (ltb_ℤ cluster.max_duration duration)) [
        | inl e ↦ rw (e, grant_for) (refl, refl)
        | inr e ↦ rw (e, grant_for) (store_grant-Keeps _ cluster s _)
      ]

  pub grant_checked-Keeps :
      (body : GrantBody) (s : Server eks)
      → Keeps s (grant_checked eks lib listing world req body s).0
  unfolding grant_checked
  grant_checked-Keeps body s = elim (Bool-cases (lacks_field body)) [
    | inl e ↦ rw (e, grant_checked) (refl, refl)
    | inr e ↦ elim (Result-cases (get_cluster s.store body.cluster_id)) [
      | inr (x, f) ↦ rw (e, f, grant_checked) (refl, refl)
      | inl (cluster, f) ↦ elim (Option-cases (lib.parse_duration body.duration)) [
        | inl g ↦ rw (e, f, g, grant_checked) (refl, refl)
        | inr (duration, g) ↦ rw (e, f, g, grant_checked) (grant_for-Keeps body cluster duration s)
      ]
    ]
  ]

  revoke_on-Keeps :
      (access : ClusterAccess) (cluster : Cluster) (s : Server eks)
      → Keeps s (revoke_on eks lib listing world req access cluster s).0
  unfolding revoke_on
  revoke_on-Keeps access cluster s =
      elim (Result-cases (
        Access.revoke_access eks world.answers.aws world.timestamp access cluster (role_arn cluster)
          s.entries)) [
            | inr (x, e) ↦ rw (e, revoke_on) (refl, refl)
            | inl (t, e) ↦
                elim (Result-cases (
                  update_cluster_access s.store (record access {
                    status = AccessStatus.revoked;
                    revoked_at = some world.now;
                  }))) [
                    | inr (x, f) ↦ rw (e, f, revoke_on) (refl, refl)
                    | inl (store, f) ↦
                        rw (e, f, revoke_on) (refl, updated_clusters s.store store _ f)
                  ]
          ]

  pub revoke_checked-Keeps :
      (id : Bytes) (s : Server eks) → Keeps s (revoke_checked eks lib listing world req id s).0
  unfolding revoke_checked
  revoke_checked-Keeps id s = elim (Result-cases (get_cluster_access s.store id)) [
    | inr (x, e) ↦ rw (e, revoke_checked) (refl, refl)
    | inl (access, e) ↦
        elim (Option-cases (may_touch eks lib listing world req s.rbac Auth.revoke_access access)) [
          | inr (x, f) ↦ rw (e, f, revoke_checked) (refl, refl)
          | inl f ↦ elim (Result-cases (get_cluster s.store access.cluster_id)) [
            | inr (x, g) ↦ rw (e, f, g, revoke_checked) (refl, refl)
            | inl (cluster, g) ↦ rw (e, f, g, revoke_checked) (revoke_on-Keeps access cluster s)
          ]
        ]
  ]

  pub cleanup_of-Keeps :
      (id : Bytes) (s : Server eks) → Keeps s (cleanup_of eks lib listing world req id s).0
  unfolding cleanup_of
  cleanup_of-Keeps id s = elim (Result-cases (get_cluster s.store id)) [
    | inr (x, e) ↦ rw (e, cleanup_of) (refl, refl)
    | inl (cluster, e) ↦
        elim (Bool-cases
          (cleanup_expired_access eks lib listing world req cluster.name s.entries)) [
            | inr f ↦ rw (e, f, cleanup_of) (refl, refl)
            | inl f ↦ rw (e, f, cleanup_of) (refl, expire_stale-clusters world.now id _ s.store)
          ]
  ]

  report_status-Keeps :
      (access : ClusterAccess) (s : Server eks)
      → Keeps s (report_status eks lib listing world req access s).0
  unfolding report_status
  report_status-Keeps access s =
      elim (Bool-cases (is_past world.now access.expires_at && is_active access.status)) [
        | inr e ↦ rw (e, report_status) (refl, refl)
        | inl e ↦ rw (e, report_status) (refl, update_access_clusters s.store _)
      ]

  pub status_of-Keeps :
      (id : Bytes) (s : Server eks) → Keeps s (status_of eks lib listing world req id s).0
  unfolding status_of
  status_of-Keeps id s = elim (Result-cases (get_cluster_access s.store id)) [
    | inr (x, e) ↦ rw (e, status_of) (refl, refl)
    | inl (access, e) ↦
        elim (Option-cases (may_touch eks lib listing world req s.rbac view_requests access)) [
          | inr (x, f) ↦ rw (e, f, status_of) (refl, refl)
          | inl f ↦ rw (e, f, status_of) (report_status-Keeps access s)
        ]
  ]
