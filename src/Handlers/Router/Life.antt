-- ===== src/Handlers/Router/Life.antt =====
-- The life of the server: the state that NewRouter makes, and any sequence of requests to the paths of
-- internal/handlers/router.go, those below /slack/ included.
use mathlib.Core.Path.{subst}
use jit_bot.Base.{
  ◌≡◌, ◌≢◌, refl, sym, ap, ◌∙◌, inl, inr, true, false, List, [], Option, none, Bytes, arith,
  Option-cases,
}
use jit_bot.Base.Int.{ℤ}
use jit_bot.Base.Text.{bytes_eq}
use jit_bot.Base.Map.{lookup}
use jit_bot.Base.Result.{ok, Result-cases}
use jit_bot.Auth.{
  Rbac, Permission, manage_clusters, manage_users, validate_permission, user_has_permission,
  role_allows, router_rbac, Role,
}
use jit_bot.Auth.Laws.{listed, get_user_role-router_rbac}
use jit_bot.Store.{MemoryStore, new_memory_store}
use jit_bot.Aws.{EksServer}
use jit_bot.Config.{Config}
use jit_bot.Slack.{SlackCommand}
use jit_bot.Slack.Middleware.{SlackRequest, Verdict, rejected, passed, verify_request}
use jit_bot.Slack.Commands.{handle_jit_command}
use jit_bot.Slack.Commands.Effect.{handle_jit_command-Effect}
use jit_bot.Handlers.{HttpRequest, World, Decoders, Server}
use jit_bot.Handlers.Start.{Loading, new_router, new_access_handler}
use jit_bot.Handlers.Router.{
  Method, Pattern, SlackPath, events, commands, serve, serve_slack, slack_path, behind_verdict,
}
use jit_bot.Handlers.Router.Rights.{IsWithin, serve-IsWithin}

-- One request that the server answers, with what the libraries say to it.
pub data Served (eks : EksServer) : Server eks → Server eks → Type 0 where
  api :
      (lib : Decoders) (listing : Bytes → eks.State → Option (List Bytes)) (world : World)
      (req : HttpRequest) (pattern : Pattern) (method : Method) (s : Server eks)
      → Served eks s (serve eks lib listing world req pattern method s).0
  slack :
      (world : World) (hmac_hex : Bytes → Bytes → Bytes)
      (form : Bytes → Bytes → Option (Bytes → Bytes)) (secret : Bytes) (seconds : ℤ)
      (command_of : SlackRequest → Option SlackCommand) (path : SlackPath) (req : SlackRequest)
      (s : Server eks)
      → Served eks s (serve_slack eks world hmac_hex form secret seconds command_of path req s).0

pub data Life (eks : EksServer) (s : Server eks) : Server eks → Type 0 where
  begin : Life eks s s
  next : {t u : Server eks} → Life eks s t → Served eks t u → Life eks s u

-- Nobody is an admin: every configured admin is configured as approver too.
abbrev pub IsLeaderless : Config → Type 0
IsLeaderless cfg =
    (u : Bytes) → listed cfg.auth.admin_users u ≡ true → listed cfg.auth.approvers u ≡ true

-- No user has a permission.
abbrev pub IsForbidden : Rbac → Permission → Type 0
IsForbidden rbac permission = (u : Bytes) → validate_permission rbac u permission ≢ none

-- The table has no one who may manage, and there is no cluster.
pub record IsIdle {eks : EksServer} (s : Server eks) : Type 0 where
  pub no_manager : IsForbidden s.rbac manage_clusters
  pub no_leader : IsForbidden s.rbac manage_users
  pub no_cluster : s.store.clusters ≡ []

leaderless_forbids :
    (cfg : Config) (permission : Permission)
    → IsLeaderless cfg
    → role_allows Role.approver permission ≡ false
    → role_allows Role.requester permission ≡ false
    → IsForbidden (router_rbac cfg.auth.admin_users cfg.auth.approvers) permission
unfolding validate_permission user_has_permission
leaderless_forbids cfg permission h ha hr u =
    ground (arith, h u, get_user_role-router_rbac cfg.auth.admin_users cfg.auth.approvers u)

module _ {eks : EksServer} where
  same_roles : (s t : Server eks) → t.rbac ≡ s.rbac → t.store.clusters ≡ [] → IsIdle s → IsIdle t
  same_roles s t e empty idle = record {
    no_manager = subst (λ r. IsForbidden r manage_clusters) (sym e) idle.no_manager;
    no_leader = subst (λ r. IsForbidden r manage_users) (sym e) idle.no_leader;
    no_cluster = empty;
  }

  served_api : (user : Bytes) (s t : Server eks) → IsWithin eks user s t → IsIdle s → IsIdle t
  served_api user s t within idle = elim within.roles [
    | inr v ↦ absurd (idle.no_leader user v)
    | inl e ↦ elim within.tables [
      | inr v ↦ absurd (idle.no_manager user v)
      | inl c ↦ same_roles s t e (c ∙ idle.no_cluster) idle
    ]
  ]

  -- Without a cluster a command stores nothing.
  said_nothing :
      (world : World) (cmd : SlackCommand) (s : Server eks)
      → IsIdle s
      → (handle_jit_command s.rbac world.now world.fresh_id cmd s.store).0 ≡ s.store
  unfolding lookup
  said_nothing world cmd s idle =
      elim (handle_jit_command-Effect s.rbac world.now world.fresh_id cmd s.store) [
        | inl e ↦ e
        | inr sub ↦ absurd (cc (rw idle.no_cluster at (sub.known)))
      ]

  served_slack :
      (world : World) (command_of : SlackRequest → Option SlackCommand) (path : SlackPath)
      (s : Server eks) (v : Verdict)
      → IsIdle s
      → IsIdle (behind_verdict eks world command_of path s v).0
  unfolding slack_path
  served_slack world command_of path s (rejected code failure) idle = idle
  served_slack world command_of events s (passed req) idle = idle
  served_slack world command_of commands s (passed req) idle =
      elim (Option-cases (command_of req)) [
        | inl e ↦ rw (e, slack_path) idle
        | inr (cmd, e) ↦
            rw (e, slack_path)
              (same_roles s _ refl
                (ap (λ (m : MemoryStore). m.clusters) (said_nothing world cmd s idle)
                  ∙ idle.no_cluster)
                idle)
      ]

  Served-IsIdle : {s t : Server eks} → Served eks s t → IsIdle s → IsIdle t
  unfolding serve_slack
  Served-IsIdle (api lib listing world req pattern method s) idle =
      served_api req.user_id s _ (serve-IsWithin eks lib listing world req pattern method s) idle
  Served-IsIdle (slack world hmac_hex form secret seconds command_of path req s) idle =
      served_slack world command_of path s (verify_request hmac_hex form secret seconds req) idle

  Life-IsIdle : {s t : Server eks} → IsIdle s → Life eks s t → IsIdle t
  Life-IsIdle idle begin = idle
  Life-IsIdle idle (next life served) = Served-IsIdle served (Life-IsIdle idle life)

module _ {X : Type 0} (loading : Loading X) (eks : EksServer) (entries : eks.State)
    (cfg : Config) where
  started_from :
      (s : Server eks)
      → new_router loading eks entries cfg ≡ ok s
      → s ≡ record {
        rbac = router_rbac cfg.auth.admin_users cfg.auth.approvers;
        store = new_memory_store;
        entries = entries;
      }
  unfolding new_router
  started_from s h =
      elim (Result-cases (
        new_access_handler loading (router_rbac cfg.auth.admin_users cfg.auth.approvers)
          new_memory_store cfg.aws.region)) [
            | inl (handler, e) ↦ cc (rw (e, new_router) at h)
            | inr (x, e) ↦ absurd (cc (rw (e, new_router) at h))
          ]

  start-IsIdle :
      (s : Server eks) → IsLeaderless cfg → new_router loading eks entries cfg ≡ ok s → IsIdle s
  unfolding new_memory_store role_allows
  start-IsIdle s h started = rw (started_from s started) (record {
    no_manager = leaderless_forbids cfg manage_clusters h refl refl;
    no_leader = leaderless_forbids cfg manage_users h refl refl;
    no_cluster = refl;
  })

  -- A server whose configuration makes nobody an admin, since every configured admin is configured as
  -- approver too or none is configured, stays idle for its life: after any sequence of requests to
  -- its paths, the signed ones of Slack included, there is no cluster in its store, and nobody has the
  -- permission to manage clusters or users.
  pub new_router-IsIdle :
      (s t : Server eks)
      → IsLeaderless cfg
      → new_router loading eks entries cfg ≡ ok s
      → Life eks s t
      → IsIdle t
  new_router-IsIdle s t h started life = Life-IsIdle (start-IsIdle s h started) life
