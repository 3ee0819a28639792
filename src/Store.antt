-- ===== src/Store.antt =====
-- pkg/store/memory.go: two maps behind a lock. An operation holds the lock for its whole body and
-- is atomic; one that changes the store returns the new store, and its error where it fails.
-- The caller's pointer that a create or an update stores is the value at the time of the call.
-- Go's random order of iteration over a map is the order of the bindings.
pub mod Laws
pub mod Keyed
use jit_bot.Base.{
  Bool, true, false, List, [], ◌∷◌, Option, none, some, Bytes, if◌then◌else◌, str_eq,
}
use jit_bot.Base.Text.{bytes_eq}
use jit_bot.Base.Result.{Result, ok, err}
use jit_bot.Base.Map.{lookup, insert, delete}
use jit_bot.Base.Int.{ℤ}
use jit_bot.Models.{Cluster, ClusterAccess}

pub record MemoryStore : Type 0 where
  pub clusters : List (Bytes × Cluster)
  pub accesses : List (Bytes × ClusterAccess)

pub data StoreError : Type 0 where
  cluster_exists cluster_not_found access_exists access_not_found : Bytes → StoreError

unfoldable pub new_memory_store : MemoryStore
new_memory_store = record { clusters = []; accesses = [] }

-- `now` is the reading of the clock.
unfoldable pub create_cluster : ℤ → MemoryStore → Cluster → Result StoreError MemoryStore
create_cluster now s cluster = elim (lookup cluster.id s.clusters) [
  | some _ ↦ err (cluster_exists cluster.id)
  | none ↦ ok (record s {
    clusters = insert cluster.id (record cluster { created_at = now; updated_at = now }) s.clusters;
  })
]

unfoldable pub get_cluster : MemoryStore → Bytes → Result StoreError Cluster
get_cluster s id = elim (lookup id s.clusters) [
  | some cluster ↦ ok cluster
  | none ↦ err (cluster_not_found id)
]

unfoldable pub values {ℓ κ} : {K : Type ℓ} {V : Type κ} → List (K × V) → List V
values [] = []
values ((k, v) ∷ m) = v ∷ values m

unfoldable pub list_clusters : MemoryStore → List Cluster
unfolding values
list_clusters s = values s.clusters

unfoldable pub update_cluster : ℤ → MemoryStore → Cluster → Result StoreError MemoryStore
update_cluster now s cluster = elim (lookup cluster.id s.clusters) [
  | none ↦ err (cluster_not_found cluster.id)
  | some _ ↦
      ok
        (record s { clusters = insert cluster.id (record cluster { updated_at = now }) s.clusters })
]

unfoldable pub delete_cluster : MemoryStore → Bytes → Result StoreError MemoryStore
delete_cluster s id = elim (lookup id s.clusters) [
  | none ↦ err (cluster_not_found id)
  | some _ ↦ ok (record s { clusters = delete id s.clusters })
]

unfoldable pub create_access : MemoryStore → ClusterAccess → Result StoreError MemoryStore
create_access s access = elim (lookup access.id s.accesses) [
  | some _ ↦ err (access_exists access.id)
  | none ↦ ok (record s { accesses = insert access.id access s.accesses })
]

unfoldable pub get_access : MemoryStore → Bytes → Result StoreError ClusterAccess
get_access s id = elim (lookup id s.accesses) [
  | some access ↦ ok access
  | none ↦ err (access_not_found id)
]

unfoldable pub of_user : Bytes → List ClusterAccess → List ClusterAccess
of_user user_id [] = []
of_user user_id (a ∷ rest) =
    let kept = of_user user_id rest in if str_eq a.user_id user_id then a ∷ kept else kept

unfoldable pub list_user_accesses : MemoryStore → Bytes → List ClusterAccess
unfolding values of_user
list_user_accesses s user_id = of_user user_id (values s.accesses)

unfoldable pub create_cluster_access : MemoryStore → ClusterAccess → Result StoreError MemoryStore
unfolding create_access
create_cluster_access s access = create_access s access

unfoldable pub get_cluster_access : MemoryStore → Bytes → Result StoreError ClusterAccess
unfolding get_access
get_cluster_access s id = get_access s id

unfoldable pub update_cluster_access : MemoryStore → ClusterAccess → Result StoreError MemoryStore
update_cluster_access s access = elim (lookup access.id s.accesses) [
  | none ↦ err (access_not_found access.id)
  | some _ ↦ ok (record s { accesses = insert access.id access s.accesses })
]

unfoldable pub list_cluster_access : MemoryStore → List ClusterAccess
unfolding values
list_cluster_access s = values s.accesses
