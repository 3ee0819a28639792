-- ===== src/Store/Keyed.antt =====
-- Whatever calls change the store, a record stands under its own identifier (pkg/store/memory.go).
use mathlib.Core.Path.{subst}
use jit_bot.Base.{◌≡◌, refl, List, [], ◌∷◌, some, Bytes, arith, str_eq_iff}
use jit_bot.Base.Text.{bytes_eq}
use jit_bot.Base.Result.{Result, ok, err}
use jit_bot.Base.Map.{lookup, insert, lookup-insert, lookup-delete}
use jit_bot.Base.Int.{ℤ}
use jit_bot.Models.{Cluster, ClusterAccess}
use jit_bot.Store.{
  MemoryStore, StoreError, create_cluster, update_cluster, delete_cluster, create_access,
  update_cluster_access, new_memory_store,
}
use jit_bot.Store.Laws.{cluster_at, access_at}

-- The calls that change the store, and the store after a call (`s` itself where the call fails).
pub data Op : Type 0 where
  create_cluster_op update_cluster_op : Cluster → Op
  delete_cluster_op : Bytes → Op
  create_access_op update_access_op : ClusterAccess → Op

abbrev after : MemoryStore → Result StoreError MemoryStore → MemoryStore
after s (ok t) = t
after s (err e) = s

pub apply : ℤ → Op → MemoryStore → MemoryStore
apply now (create_cluster_op c) s = after s (create_cluster now s c)
apply now (update_cluster_op c) s = after s (update_cluster now s c)
apply now (delete_cluster_op id) s = after s (delete_cluster s id)
apply now (create_access_op a) s = after s (create_access s a)
apply now (update_access_op a) s = after s (update_cluster_access s a)

pub run_ops : List (ℤ × Op) → MemoryStore → MemoryStore
run_ops [] s = s
run_ops ((now, op) ∷ rest) s = run_ops rest (apply now op s)

-- Each record stands under its own identifier.
pub record IsKeyed (s : MemoryStore) : Type 0 where
  pub clusters_keyed : (k : Bytes) (c : Cluster) → cluster_at s k ≡ some c → c.id ≡ k
  pub accesses_keyed : (k : Bytes) (a : ClusterAccess) → access_at s k ≡ some a → a.id ≡ k

after-IsKeyed :
    (s : MemoryStore) (r : Result StoreError MemoryStore)
    → IsKeyed s
    → ((t : MemoryStore) → r ≡ ok t → IsKeyed t)
    → IsKeyed (after s r)
after-IsKeyed s (ok t) h k = k t refl
after-IsKeyed s (err e) h k = h

create_cluster-IsKeyed :
    (now : ℤ) (s t : MemoryStore) (c : Cluster)
    → IsKeyed s
    → create_cluster now s c ≡ ok t
    → IsKeyed t
unfolding create_cluster
create_cluster-IsKeyed now s t c h e = record {
  clusters_keyed = λ k d q. ground (
    arith,
    h.clusters_keyed k d,
    str_eq_iff c.id k,
    lookup-insert c.id k (record c { created_at = now; updated_at = now }) s.clusters,
  );
  accesses_keyed = λ k d q. ground (arith, h.accesses_keyed k d);
}

update_cluster-IsKeyed :
    (now : ℤ) (s t : MemoryStore) (c : Cluster)
    → IsKeyed s
    → update_cluster now s c ≡ ok t
    → IsKeyed t
unfolding update_cluster
update_cluster-IsKeyed now s t c h e = record {
  clusters_keyed = λ k d q. ground (
    arith,
    h.clusters_keyed k d,
    str_eq_iff c.id k,
    lookup-insert c.id k (record c { updated_at = now }) s.clusters,
  );
  accesses_keyed = λ k d q. ground (arith, h.accesses_keyed k d);
}

delete_cluster-IsKeyed :
    (s t : MemoryStore) (id : Bytes) → IsKeyed s → delete_cluster s id ≡ ok t → IsKeyed t
unfolding delete_cluster
delete_cluster-IsKeyed s t id h e = record {
  clusters_keyed = λ k d q. ground (arith, h.clusters_keyed k d, lookup-delete id k s.clusters);
  accesses_keyed = λ k d q. ground (arith, h.accesses_keyed k d);
}

insert_access-IsKeyed :
    (s : MemoryStore) (a : ClusterAccess)
    → IsKeyed s
    → IsKeyed (record s { accesses = insert a.id a s.accesses })
insert_access-IsKeyed s a h = record {
  clusters_keyed = h.clusters_keyed;
  accesses_keyed = λ k d q.
      ground (arith, h.accesses_keyed k d, str_eq_iff a.id k, lookup-insert a.id k a s.accesses);
}

create_access-ok :
    (s t : MemoryStore) (a : ClusterAccess)
    → create_access s a ≡ ok t
    → record s { accesses = insert a.id a s.accesses } ≡ t
unfolding create_access
create_access-ok s t a e = ground arith

update_access-ok :
    (s t : MemoryStore) (a : ClusterAccess)
    → update_cluster_access s a ≡ ok t
    → record s { accesses = insert a.id a s.accesses } ≡ t
unfolding update_cluster_access
update_access-ok s t a e = ground arith

apply-IsKeyed : (now : ℤ) (op : Op) (s : MemoryStore) → IsKeyed s → IsKeyed (apply now op s)
unfolding apply
apply-IsKeyed now (create_cluster_op c) s h =
    after-IsKeyed s _ h (λ t. create_cluster-IsKeyed now s t c h)
apply-IsKeyed now (update_cluster_op c) s h =
    after-IsKeyed s _ h (λ t. update_cluster-IsKeyed now s t c h)
apply-IsKeyed now (delete_cluster_op id) s h =
    after-IsKeyed s _ h (λ t. delete_cluster-IsKeyed s t id h)
apply-IsKeyed now (create_access_op a) s h =
    after-IsKeyed s _ h
      (λ t e. subst IsKeyed (create_access-ok s t a e) (insert_access-IsKeyed s a h))
apply-IsKeyed now (update_access_op a) s h =
    after-IsKeyed s _ h
      (λ t e. subst IsKeyed (update_access-ok s t a e) (insert_access-IsKeyed s a h))

run_ops-IsKeyed_from : (ops : List (ℤ × Op)) (s : MemoryStore) → IsKeyed s → IsKeyed (run_ops ops s)
unfolding run_ops
run_ops-IsKeyed_from [] s h = h
run_ops-IsKeyed_from ((now, op) ∷ rest) s h =
    run_ops-IsKeyed_from rest (apply now op s) (apply-IsKeyed now op s h)

-- After any sequence of creates, updates and deletes from an empty store, each cluster and each
-- access stands under its own identifier.
pub run_ops-IsKeyed : (ops : List (ℤ × Op)) → IsKeyed (run_ops ops new_memory_store)
unfolding new_memory_store lookup
run_ops-IsKeyed ops =
    run_ops-IsKeyed_from ops new_memory_store
      (record { clusters_keyed = λ k c e. cc; accesses_keyed = λ k a e. cc })
