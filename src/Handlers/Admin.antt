-- ===== src/Handlers/Admin.antt =====
-- internal/handlers/admin.go: clusters and roles.
use jit_bot.Base.{zero, none, some, Bytes, codes, if◌then◌else◌}
use jit_bot.Base.Int.{ℤ, pos, zero_time}
use jit_bot.Base.Result.{ok, err}
use jit_bot.Models.{Cluster}
use jit_bot.Auth.{manage_clusters, manage_users, view_requests, set_user_role}
use jit_bot.Store.{create_cluster, update_cluster, delete_cluster, list_clusters}
use jit_bot.Aws.{EksServer}
use jit_bot.Webhook.Duration.{is_nil, hour}
use jit_bot.Handlers.{
  HttpRequest, World, Decoders, Server, Answer, replied, failed, with_user, no_content,
  cluster_body, clusters_body, role_updated, invalid_body, missing_cluster_id, store_failed,
}

abbrev or_hour : ℤ → ℤ
or_hour (pos zero) = pos hour
or_hour d = d

-- The cluster that CreateCluster makes of the decoded one.
unfoldable pub new_cluster : Bytes → Bytes → Cluster → Cluster
new_cluster id user req = record {
  id = id;
  name = req.name;
  display_name = req.display_name;
  aws_account = req.aws_account;
  region = req.region;
  environment = req.environment;
  tags = req.tags;
  max_duration = or_hour req.max_duration;
  required_approvers = req.required_approvers;
  enabled = req.enabled;
  created_at = zero_time;
  updated_at = zero_time;
  created_by = user;
}

module _ (eks : EksServer) (lib : Decoders) (world : World) (req : HttpRequest) where
  unfoldable pub create_cluster_handler : Server eks → Server eks × Answer
  create_cluster_handler s =
      with_user eks manage_clusters req.user_id s (elim (lib.decode_cluster req.body) [
        | none ↦ (s, failed 400 invalid_body)
        | some body ↦
            let cluster = new_cluster world.fresh_id req.user_id body in
            elim (create_cluster world.now s.store cluster) [
              | err e ↦ (s, failed 409 (store_failed e))
              | ok store ↦ (
                record s { store = store },
                replied 200 (
                    cluster_body
                      (record cluster { created_at = world.now; updated_at = world.now })),
              )
            ]
      ])

  unfoldable pub list_clusters_handler : Server eks → Server eks × Answer
  list_clusters_handler s =
      with_user eks view_requests req.user_id s
        (s, replied 200 (clusters_body (list_clusters s.store)))

  unfoldable pub update_cluster_handler : Server eks → Server eks × Answer
  update_cluster_handler s =
      with_user eks manage_clusters req.user_id s (elim (lib.decode_cluster req.body) [
        | none ↦ (s, failed 400 invalid_body)
        | some cluster ↦ elim (update_cluster world.now s.store cluster) [
          | err e ↦ (s, failed 404 (store_failed e))
          | ok store ↦ (
            record s { store = store },
            replied 200 (cluster_body (record cluster { updated_at = world.now })),
          )
        ]
      ])

  unfoldable pub delete_cluster_handler : Server eks → Server eks × Answer
  delete_cluster_handler s =
      let id = req.query (codes "id") in
      with_user eks manage_clusters req.user_id s (
        if is_nil id then (s, failed 400 missing_cluster_id) else elim (delete_cluster s.store id) [
          | err e ↦ (s, failed 404 (store_failed e))
          | ok store ↦ (record s { store = store }, replied 204 no_content)
        ])

  unfoldable pub manage_user : Server eks → Server eks × Answer
  manage_user s = with_user eks manage_users req.user_id s (elim (lib.decode_role req.body) [
    | none ↦ (s, failed 400 invalid_body)
    | some body ↦ (
      record s { rbac = set_user_role s.rbac body.user_id body.role },
      replied 200 (role_updated body.user_id body.role),
    )
  ])
