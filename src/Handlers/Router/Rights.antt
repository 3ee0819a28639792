-- ===== src/Handlers/Router/Rights.antt =====
-- Which rights the changes need that a request to internal/handlers/router.go makes.
use jit_bot.Base.{
  ◌≡◌, refl, ◌⊎◌, inl, inr, Bool, true, false, List, Option, none, Bytes, codes, Bool-cases,
  Option-cases,
}
use jit_bot.Base.Result.{Result-cases}
use jit_bot.Auth.{
  Permission, create_requests, view_requests, manage_clusters, manage_users, validate_permission,
}
use jit_bot.Store.{MemoryStore, create_cluster, update_cluster, delete_cluster}
use jit_bot.Aws.{EksServer}
use jit_bot.Webhook.Duration.{is_nil}
use jit_bot.Handlers.{HttpRequest, World, Decoders, Server, Answer, with_user}
use jit_bot.Handlers.Admin.{
  new_cluster, create_cluster_handler, list_clusters_handler, update_cluster_handler,
  delete_cluster_handler, manage_user,
}
use jit_bot.Handlers.Access.{grant_access_handler, revoke_access_handler}
use jit_bot.Handlers.Access.Views.{list_access, cleanup_access_handler, get_access_status}
use jit_bot.Handlers.Access.Keeps.{
  Keeps, grant_checked-Keeps, revoke_checked-Keeps, cleanup_of-Keeps, status_of-Keeps,
}
use jit_bot.Handlers.Router.{
  Method, get, post, put, delete, other_method, Pattern, health, ready, clusters, users_role,
  access_grant, access_revoke, access, access_status, access_cleanup, serve_clusters, serve, is_get,
  is_post, only,
}

-- A state that a request of a user may leave behind: other roles only with the right to manage users,
-- other clusters only with the right to manage clusters, and any change only with a name.
pub record IsWithin (eks : EksServer) (user : Bytes) (s t : Server eks) : Type 0 where
  pub roles : (t.rbac ≡ s.rbac) ⊎ (validate_permission s.rbac user manage_users ≡ none)
  pub tables :
      (t.store.clusters ≡ s.store.clusters)
      ⊎ (validate_permission s.rbac user manage_clusters ≡ none)
  pub named : (t ≡ s) ⊎ (is_nil user ≡ false)

module _ (eks : EksServer) (lib : Decoders) (listing : Bytes → eks.State → Option (List Bytes))
    (world : World) (req : HttpRequest) where
  abbrev Within : Server eks → Server eks → Type 0
  Within = IsWithin eks req.user_id

  same : (s : Server eks) → Within s s
  same s = record { roles = inl refl; tables = inl refl; named = inl refl }

  kept :
      (s t : Server eks)
      → is_nil req.user_id ≡ false
      → Keeps eks lib listing world req s t
      → Within s t
  kept s t u k = record { roles = inl k.0; tables = inl k.1; named = inr u }

  guarded :
      (permission : Permission) (s : Server eks) (rest : Server eks × Answer)
      → (is_nil req.user_id ≡ false
          → validate_permission s.rbac req.user_id permission ≡ none
          → Within s rest.0)
      → Within s (with_user eks permission req.user_id s rest).0
  unfolding with_user
  guarded permission s rest h = elim (Bool-cases (is_nil req.user_id)) [
    | inl u ↦ rw (u, with_user) (same s)
    | inr u ↦ elim (Option-cases (validate_permission s.rbac req.user_id permission)) [
      | inr (x, v) ↦ rw (u, v, with_user) (same s)
      | inl v ↦ rw (u, v, with_user) (h u v)
    ]
  ]

  -- A change of the clusters that is allowed.
  changed :
      (s : Server eks) (store : MemoryStore)
      → is_nil req.user_id ≡ false
      → validate_permission s.rbac req.user_id manage_clusters ≡ none
      → Within s (record s { store = store })
  changed s store u v = record { roles = inl refl; tables = inr v; named = inr u }

  create-Within : (s : Server eks) → Within s (create_cluster_handler eks lib world req s).0
  unfolding create_cluster_handler
  create-Within s = guarded manage_clusters s _ (λ u v.
      elim (Option-cases (lib.decode_cluster req.body)) [
        | inl e ↦ rw e (same s)
        | inr (body, e) ↦
            rw e
              (elim (Result-cases
                (create_cluster world.now s.store (new_cluster world.fresh_id req.user_id body))) [
                  | inr (x, f) ↦ rw f (same s)
                  | inl (store, f) ↦ rw f (changed s store u v)
                ])
      ])

  update-Within : (s : Server eks) → Within s (update_cluster_handler eks lib world req s).0
  unfolding update_cluster_handler
  update-Within s = guarded manage_clusters s _ (λ u v.
      elim (Option-cases (lib.decode_cluster req.body)) [
        | inl e ↦ rw e (same s)
        | inr (cluster, e) ↦ rw e (elim (Result-cases (update_cluster world.now s.store cluster)) [
          | inr (x, f) ↦ rw f (same s)
          | inl (store, f) ↦ rw f (changed s store u v)
        ])
      ])

  delete-Within : (s : Server eks) → Within s (delete_cluster_handler eks lib world req s).0
  unfolding delete_cluster_handler
  delete-Within s = guarded manage_clusters s _ (λ u v.
      elim (Bool-cases (is_nil (req.query (codes "id")))) [
        | inl e ↦ rw e (same s)
        | inr e ↦ rw e (elim (Result-cases (delete_cluster s.store (req.query (codes "id")))) [
          | inr (x, f) ↦ rw f (same s)
          | inl (store, f) ↦ rw f (changed s store u v)
        ])
      ])

  list-Within : (s : Server eks) → Within s (list_clusters_handler eks lib world req s).0
  unfolding list_clusters_handler
  list-Within s = guarded view_requests s _ (λ u v. same s)

  clusters-Within :
      (m : Method) (s : Server eks) → Within s (serve_clusters eks lib listing world req m s).0
  unfolding serve_clusters
  clusters-Within get s = list-Within s
  clusters-Within post s = create-Within s
  clusters-Within put s = update-Within s
  clusters-Within delete s = delete-Within s
  clusters-Within (other_method _) s = same s

  users-Within : (s : Server eks) → Within s (manage_user eks lib world req s).0
  unfolding manage_user
  users-Within s = guarded manage_users s _ (λ u v. elim (Option-cases (lib.decode_role req.body)) [
    | inl e ↦ rw e (same s)
    | inr (body, e) ↦ rw e (record { roles = inr v; tables = inl refl; named = inr u })
  ])

  grant-Within : (s : Server eks) → Within s (grant_access_handler eks lib listing world req s).0
  unfolding grant_access_handler
  grant-Within s = guarded create_requests s _ (λ u v.
      elim (Option-cases (lib.decode_grant req.body)) [
        | inl e ↦ rw e (same s)
        | inr (body, e) ↦ rw e (kept s _ u (grant_checked-Keeps eks lib listing world req body s))
      ])

  revoke-Within : (s : Server eks) → Within s (revoke_access_handler eks lib listing world req s).0
  unfolding revoke_access_handler
  revoke-Within s = elim (Bool-cases (is_nil req.user_id)) [
    | inl u ↦ rw u (same s)
    | inr u ↦ rw u (elim (Option-cases (lib.decode_revoke req.body)) [
      | inl e ↦ rw e (same s)
      | inr (id, e) ↦ rw e (kept s _ u (revoke_checked-Keeps eks lib listing world req id s))
    ])
  ]

  accesses-Within : (s : Server eks) → Within s (list_access eks lib listing world req s).0
  unfolding list_access
  accesses-Within s = guarded view_requests s _ (λ u v. same s)

  cleanup-Within :
      (s : Server eks) → Within s (cleanup_access_handler eks lib listing world req s).0
  unfolding cleanup_access_handler
  cleanup-Within s = guarded manage_clusters s _ (λ u v.
      elim (Bool-cases (is_nil (req.query (codes "cluster_id")))) [
        | inl e ↦ rw e (same s)
        | inr e ↦ rw e (
            kept s _ u
              (cleanup_of-Keeps eks lib listing world req (req.query (codes "cluster_id")) s))
      ])

  status-Within : (s : Server eks) → Within s (get_access_status eks lib listing world req s).0
  unfolding get_access_status
  status-Within s = elim (Bool-cases (is_nil req.user_id)) [
    | inl u ↦ rw u (same s)
    | inr u ↦ elim (Bool-cases (is_nil (req.query (codes "access_id")))) [
      | inl e ↦ rw (u, e) (same s)
      | inr e ↦
          rw (u, e)
            (kept s _ u
              (status_of-Keeps eks lib listing world req (req.query (codes "access_id")) s))
    ]
  ]

  only-Within :
      (allowed : Bool) (s : Server eks) (answer : Server eks × Answer)
      → Within s answer.0
      → Within s (only eks lib listing world req allowed s answer).0
  only-Within true s answer h = h
  only-Within false s answer h = same s

-- Whatever the method of a request to a path that is not below /slack/, and whatever its body and AWS
-- say: the roles change only if its user may manage users, the clusters of the store only if its user
-- may manage clusters, and where its user header is empty nothing changes.
pub serve-IsWithin :
    (eks : EksServer) (lib : Decoders) (listing : Bytes → eks.State → Option (List Bytes))
    (world : World) (req : HttpRequest) (pattern : Pattern) (method : Method) (s : Server eks)
    → IsWithin eks req.user_id s (serve eks lib listing world req pattern method s).0
unfolding serve
serve-IsWithin eks lib listing world req health m s = same eks lib listing world req s
serve-IsWithin eks lib listing world req ready m s = same eks lib listing world req s
serve-IsWithin eks lib listing world req clusters m s =
    clusters-Within eks lib listing world req m s
serve-IsWithin eks lib listing world req users_role m s = users-Within eks lib listing world req s
serve-IsWithin eks lib listing world req access_grant m s =
    only-Within eks lib listing world req (is_post m) s _ (grant-Within eks lib listing world req s)
serve-IsWithin eks lib listing world req access_revoke m s =
    only-Within eks lib listing world req (is_post m) s _
      (revoke-Within eks lib listing world req s)
serve-IsWithin eks lib listing world req access m s =
    only-Within eks lib listing world req (is_get m) s _
      (accesses-Within eks lib listing world req s)
serve-IsWithin eks lib listing world req access_status m s =
    only-Within eks lib listing world req (is_get m) s _ (status-Within eks lib listing world req s)
serve-IsWithin eks lib listing world req access_cleanup m s =
    only-Within eks lib listing world req (is_post m) s _
      (cleanup-Within eks lib listing world req s)
