-- ===== src/Handlers/Access/Views.antt =====
-- internal/handlers/access.go: the listing of accesses, the cleanup of a cluster, and the status of one
-- access.
use jit_bot.Base.{
  ℕ, suc, Bool, true, false, not, ◌&&◌, ◌||◌, List, [], ◌∷◌, Option, none, some, Bytes, codes,
  str_eq, if◌then◌else◌,
}
use jit_bot.Base.Int.{ℤ}
use jit_bot.Base.Result.{Result, ok, err}
use jit_bot.Models.{ClusterAccess, AccessStatus}
use jit_bot.Auth.{view_requests, manage_clusters}
use jit_bot.Store.{
  MemoryStore, StoreError, get_cluster, get_cluster_access, update_cluster_access,
  list_cluster_access,
}
use jit_bot.Aws.{EksServer}
use jit_bot.Cleanup.{list_active_access}
use jit_bot.Webhook.Duration.{is_nil}
use jit_bot.Handlers.{
  HttpRequest, World, Decoders, Server, Answer, replied, failed, with_user, accesses_body,
  cleaned_body, access_body, missing_user_id, missing_cluster_id, missing_access_id,
  aws_list_failed, forbidden, cluster_unknown, access_unknown,
}
use jit_bot.Handlers.Access.{is_past, is_active, may_touch}

-- The filters of ListAccess; an empty text filters nothing.
unfoldable pub is_kept : ℤ → Bytes → Bytes → Bool → ClusterAccess → Bool
is_kept now user_id cluster_id active_only access =
    (is_nil user_id || str_eq access.user_id user_id)
    && (is_nil cluster_id || str_eq access.cluster_id cluster_id)
    && not (active_only && not (is_active access.status))
    && not (active_only && is_past now access.expires_at)

-- The loop of ListAccess.
unfoldable pub filter_access : (ClusterAccess → Bool) → List ClusterAccess → List ClusterAccess
filter_access keep [] = []
filter_access keep (a ∷ rest) =
    let kept = filter_access keep rest in if keep a then a ∷ kept else kept

-- The test of the loop of CleanupExpiredAccess.
unfoldable pub is_stale : ℤ → Bytes → ClusterAccess → Bool
is_stale now cluster_id access =
    str_eq access.cluster_id cluster_id && is_active access.status && is_past now access.expires_at

abbrev pub with_status : AccessStatus → ClusterAccess → ClusterAccess
with_status status access = record access { status = status }

abbrev pub store_or : MemoryStore → Result StoreError MemoryStore → MemoryStore
store_or store (ok store') = store'
store_or store (err e) = store

-- The loop of CleanupExpiredAccess, with the count.
unfoldable pub expire_stale : ℤ → Bytes → List ClusterAccess → MemoryStore → MemoryStore × ℕ
expire_stale now cluster_id [] store = (store, 0)
expire_stale now cluster_id (a ∷ rest) store =
    let written = update_cluster_access store (with_status AccessStatus.expired a) in
    let skipped = expire_stale now cluster_id rest store in
    if is_stale now cluster_id a
    then elim written [
      | err e ↦ expire_stale now cluster_id rest store
      | ok store' ↦ let (last, count) = expire_stale now cluster_id rest store' in (last, suc count)
    ]
    else skipped

module _ (eks : EksServer) (lib : Decoders) (listing : Bytes → eks.State → Option (List Bytes))
    (world : World) (req : HttpRequest) where
  unfoldable pub list_access : Server eks → Server eks × Answer
  list_access s =
      let keep =
        is_kept world.now (req.query (codes "user_id")) (req.query (codes "cluster_id"))
          (str_eq (req.query (codes "active")) (codes "true")) in
      with_user eks view_requests req.user_id s
        (s, replied 200 (accesses_body (filter_access keep (list_cluster_access s.store))))

  -- CleanupExpiredAccess of the access manager: it lists and describes entries, and changes none.
  -- `true` is a nil error.
  unfoldable pub cleanup_expired_access : Bytes → eks.State → Bool
  cleanup_expired_access cluster_name entries =
      elim (list_active_access eks world.answers.aws listing cluster_name entries) [
        | none ↦ false
        | some arns ↦ true
      ]

  unfoldable pub cleanup_of : Bytes → Server eks → Server eks × Answer
  cleanup_of id s = elim (get_cluster s.store id) [
    | err e ↦ (s, failed 404 (cluster_unknown id))
    | ok cluster ↦
        let (store, count) = expire_stale world.now id (list_cluster_access s.store) s.store in
        if cleanup_expired_access cluster.name s.entries
        then (record s { store = store }, replied 200 (cleaned_body cluster.name count))
        else (s, failed 500 aws_list_failed)
  ]

  unfoldable pub cleanup_access_handler : Server eks → Server eks × Answer
  cleanup_access_handler s =
      let id = req.query (codes "cluster_id") in
      with_user eks manage_clusters req.user_id s
        (if is_nil id then (s, failed 400 missing_cluster_id) else cleanup_of id s)

  -- The end of GetAccessStatus: an expired access is marked, whether that can be stored or not.
  unfoldable pub report_status : ClusterAccess → Server eks → Server eks × Answer
  report_status access s =
      let marked = with_status AccessStatus.expired access in
      if is_past world.now access.expires_at && is_active access.status
      then (
        record s { store = store_or s.store (update_cluster_access s.store marked) },
        replied 200 (access_body marked),
      )
      else (s, replied 200 (access_body access))

  unfoldable pub status_of : Bytes → Server eks → Server eks × Answer
  status_of id s = elim (get_cluster_access s.store id) [
    | err e ↦ (s, failed 404 (access_unknown id))
    | ok access ↦ elim (may_touch eks lib listing world req s.rbac view_requests access) [
      | some e ↦ (s, failed 403 (forbidden e))
      | none ↦ report_status access s
    ]
  ]

  unfoldable pub get_access_status : Server eks → Server eks × Answer
  get_access_status s =
      let id = req.query (codes "access_id") in
      if is_nil req.user_id
      then (s, failed 401 missing_user_id)
      else if is_nil id
      then (s, failed 400 missing_access_id)
      else status_of id s
