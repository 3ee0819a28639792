-- ===== src/Cleanup.antt =====
-- pkg/kubernetes/cleanup.go: the service that removes access entries. The listing of the entries of
-- a cluster is EKS's answer, a function of its state (`none` where the call fails). Errors behind
-- the listing are only logged.
pub mod Sweep
pub mod Sessions
use jit_bot.Base.{
  ℕ, Bool, true, false, not, ◌&&◌, List, [], ◌∷◌, Option, none, some, Bytes, codes, contains_text,
  has_prefix, last_or, length, ltb, join, if◌then◌else◌, str_eq,
}
use jit_bot.Base.Int.{ℤ, ◌+ℤ◌, ltb_ℤ}
use jit_bot.Base.Result.{Result, ok, err, state_after}
use jit_bot.Models.{Cluster, ClusterAccess, AccessStatus}
use jit_bot.Aws.{EksServer, AwsAnswers, AwsError, delete_access_entry}
use jit_bot.Access.{split, is_jit_entry}

pub record SessionInfo : Type 0 where
  pub session_name : Bytes
  pub user_id : Bytes
  pub cluster_id : Bytes
  pub timestamp : Bytes

-- The parts of a session name; fewer than four are none.
unfoldable pub session_of : Bytes → List Bytes → Option SessionInfo
session_of name (jit ∷ user ∷ cluster ∷ t ∷ rest) = some (record {
  session_name = name;
  user_id = user;
  cluster_id = cluster;
  timestamp = join (t ∷ rest) (codes "-");
})
session_of name _ = none

unfoldable pub extract_session_info : Bytes → Option SessionInfo
extract_session_info entry_arn =
    let parts = split b'/' [] entry_arn in
    let name = last_or [] parts in
    if not (contains_text (codes "assumed-role") entry_arn)
    then none
    else if ltb (length parts) 3
    then none
    else if not (has_prefix (codes "jit-") name)
    then none
    else session_of name (split b'-' [] name)

pub data LookupError : Type 0 where
  not_implemented : LookupError

unfoldable pub find_access_by_session : SessionInfo → Result LookupError ClusterAccess
find_access_by_session info = err not_implemented

unfoldable pub is_access_expired : ℤ → ClusterAccess → Bool
is_access_expired now access = elim access.expires_at [
  | none ↦ ltb_ℤ (access.requested_at +ℤ access.duration) now
  | some t ↦ ltb_ℤ t now
]

-- The loop of ListActiveAccess.
unfoldable pub jit_entries : List Bytes → List Bytes
jit_entries [] = []
jit_entries (arn ∷ rest) =
    let kept = jit_entries rest in if is_jit_entry arn then arn ∷ kept else kept

-- What wakes the worker: the end of its context, or its ticker, with the time and the clusters of the
-- store at that moment.
pub data WorkerEvent : Type 0 where
  context_done : WorkerEvent
  tick : ℤ → List Cluster → WorkerEvent

module _ (eks : EksServer) (answers : AwsAnswers)
    (listing : Bytes → eks.State → Option (List Bytes)) where
  open eks use {State}

  unfoldable pub list_active_access : Bytes → State → Option (List Bytes)
  list_active_access cluster_name s = elim (listing cluster_name s) [
    | none ↦ none
    | some arns ↦ some (jit_entries arns)
  ]

  -- A deletion whose error is only logged.
  unfoldable pub delete_logged : Bytes → Bytes → State → State
  delete_logged cluster_name arn s =
      state_after s (delete_access_entry eks answers cluster_name arn s)

  -- The access as it is changed after the deletion, and the entries.
  unfoldable pub revoke_expired_access :
      ℤ → ClusterAccess → Cluster → Bytes → State → Result AwsError (State × ClusterAccess)
  revoke_expired_access now access cluster arn s =
      elim (delete_access_entry eks answers cluster.name arn s) [
        | err e ↦ err e
        | ok t ↦ ok (
          t,
          record access {
            status = AccessStatus.expired;
            revoked_at = some now;
            revoke_reason = codes "Automatic expiration";
          },
        )
      ]

  abbrev entries_after : State → Result AwsError (State × ClusterAccess) → State
  entries_after s (ok (t, access)) = t
  entries_after s (err e) = s

  -- The rest of the loop's body, behind the look-up of the access.
  unfoldable pub cleanup_access :
      ℤ → Cluster → Bytes → Result LookupError ClusterAccess → State → State
  cleanup_access now cluster arn (err e) s = delete_logged cluster.name arn s
  cleanup_access now cluster arn (ok access) s =
      if is_access_expired now access
      then entries_after s (revoke_expired_access now access cluster arn s)
      else s

  unfoldable pub cleanup_entry : ℤ → Cluster → Bytes → State → State
  cleanup_entry now cluster arn s = elim (extract_session_info arn) [
    | none ↦ s
    | some info ↦ cleanup_access now cluster arn (find_access_by_session info) s
  ]

  unfoldable pub cleanup_entries : ℤ → Cluster → List Bytes → State → State
  cleanup_entries now cluster [] s = s
  cleanup_entries now cluster (arn ∷ rest) s =
      cleanup_entries now cluster rest (cleanup_entry now cluster arn s)

  unfoldable pub cleanup_cluster_access : ℤ → Cluster → State → State
  cleanup_cluster_access now cluster s = elim (list_active_access cluster.name s) [
    | none ↦ s
    | some arns ↦ cleanup_entries now cluster arns s
  ]

  -- performCleanup, on the clusters of the store.
  unfoldable pub perform_cleanup : ℤ → List Cluster → State → State
  perform_cleanup now [] s = s
  perform_cleanup now (cluster ∷ rest) s =
      perform_cleanup now rest (cleanup_cluster_access now cluster s)

  unfoldable pub delete_all : Bytes → List Bytes → State → State
  delete_all cluster_name [] s = s
  delete_all cluster_name (arn ∷ rest) s =
      delete_all cluster_name rest (delete_logged cluster_name arn s)

  unfoldable pub force_cleanup_cluster : Bytes → State → Option State
  force_cleanup_cluster cluster_name s = elim (list_active_access cluster_name s) [
    | none ↦ none
    | some arns ↦ some (delete_all cluster_name arns s)
  ]

  abbrev pub is_user_of : Bytes → Option SessionInfo → Bool
  is_user_of user_id none = false
  is_user_of user_id (some info) = str_eq info.user_id user_id

  unfoldable pub delete_of_user : Bytes → Bytes → List Bytes → State → State
  delete_of_user user_id cluster_name [] s = s
  delete_of_user user_id cluster_name (arn ∷ rest) s =
      let s' =
        (if is_user_of user_id (extract_session_info arn)
          then delete_logged cluster_name arn s
          else s) in
      delete_of_user user_id cluster_name rest s'

  abbrev pub or_none : Option (List Bytes) → List Bytes
  or_none none = []
  or_none (some arns) = arns

  unfoldable pub cleanup_user_access : Bytes → List Cluster → State → State
  cleanup_user_access user_id [] s = s
  cleanup_user_access user_id (cluster ∷ rest) s =
      let s' =
        delete_of_user user_id cluster.name (or_none (list_active_access cluster.name s)) s in
      cleanup_user_access user_id rest s'

  -- The select of StartCleanupWorker over the events in their order; the errors of a pass are logged.
  unfoldable pub start_cleanup_worker : List WorkerEvent → State → State
  start_cleanup_worker [] s = s
  start_cleanup_worker (context_done ∷ events) s = s
  start_cleanup_worker (tick now clusters ∷ events) s =
      start_cleanup_worker events (perform_cleanup now clusters s)
