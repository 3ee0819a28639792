-- ===== src/Tests/Tables.antt =====
-- The store and the table of users on concrete data.
use jit_bot.Base.{
  ◌≡◌, ◌⊎◌, true, false, List, [], ◌∷◌, none, some, Bytes, codes, if◌then◌else◌, str_eq,
}
use jit_bot.Base.Int.{ℤ, pos}
use jit_bot.Base.Result.{ok, err}
use jit_bot.Models.{Cluster, ClusterAccess, AccessStatus}
use jit_bot.Store.{MemoryStore, cluster_exists, create_cluster, new_memory_store}
use jit_bot.Store.Laws.{cluster_at, create_cluster_refines}
use jit_bot.Store.Keyed.{
  Op, create_cluster_op, delete_cluster_op, update_cluster_op, create_access_op, run_ops, IsKeyed,
  run_ops-IsKeyed,
}

abbrev pub dev_cluster : Cluster
dev_cluster = record {
  id = codes "dev-1";
  name = codes "dev-cluster";
  display_name = codes "dev";
  aws_account = codes "123456789012";
  region = codes "us-east-1";
  environment = codes "dev";
  tags = [];
  max_duration = pos 3600;
  required_approvers = pos 1;
  enabled = true;
  created_at = pos 0;
  updated_at = pos 0;
  created_by = codes "U123ABC456D";
}

abbrev pub alice_access : ClusterAccess
alice_access = record {
  id = codes "a1";
  cluster_id = codes "dev-1";
  user_id = codes "alice";
  user_email = codes "alice@example.com";
  reason = codes "look at the logs of the shop";
  duration = pos 3600;
  status = AccessStatus.approved;
  approved_by = [];
  requested_at = pos 1;
  approved_at = none;
  expires_at = none;
  revoked_at = none;
  revoked_by = [];
  revoke_reason = [];
}

abbrev two_users : MemoryStore
two_users = record {
  clusters = (codes "dev-1", dev_cluster) ∷ [];
  accesses =
      (codes "a1", alice_access)
      ∷ (codes "a2", record alice_access { id = codes "a2"; user_id = codes "bob" })
      ∷ [];
}

create_cluster_refines_example :
    ((t : MemoryStore) × (create_cluster (pos 7) new_memory_store dev_cluster ≡ ok t)
      × (cluster_at new_memory_store dev_cluster.id ≡ none)
      × (t.accesses ≡ [])
      × ((id : Bytes)
          → cluster_at t id ≡ (
              if str_eq dev_cluster.id id
              then some (record dev_cluster { created_at = pos 7; updated_at = pos 7 })
              else cluster_at new_memory_store id)))
    ⊎ ((old : Cluster) × (cluster_at new_memory_store dev_cluster.id ≡ some old)
        × (create_cluster (pos 7) new_memory_store dev_cluster
            ≡ err (cluster_exists dev_cluster.id)))
unfolding new_memory_store
create_cluster_refines_example = create_cluster_refines (pos 7) new_memory_store dev_cluster

abbrev some_ops : List (ℤ × Op)
some_ops =
    (pos 1, create_cluster_op dev_cluster)
    ∷ (pos 2, create_access_op alice_access)
    ∷ (pos 3, update_cluster_op (record dev_cluster { enabled = false }))
    ∷ (pos 4, delete_cluster_op (codes "dev-1"))
    ∷ []

run_ops-IsKeyed_example : IsKeyed (run_ops some_ops new_memory_store)
run_ops-IsKeyed_example = run_ops-IsKeyed some_ops
