-- ===== src/Serve/Listening.antt =====
-- When the command serve of jit-server listens, and when it ends.
use jit_bot.Base.{
  ◌≡◌, ◌↔◌, refl, ap, inl, inr, List, [], ◌∷◌, ◌++◌, Option, none, some, Bytes, codes, All,
  Option-cases,
}
use jit_bot.Base.Result.{ok, Result-cases}
use jit_bot.Auth.{router_rbac}
use jit_bot.Store.{new_memory_store}
use jit_bot.Aws.{EksServer}
use jit_bot.Config.{Config, load_from_viper, set_defaults}
use jit_bot.Config.Loaded.{IsComplete, load_from_viper_iff}
use jit_bot.Handlers.{Server}
use jit_bot.Handlers.Start.{
  Loading, new_sts_service, new_eks_service, new_access_manager, new_access_handler, new_router,
}
use jit_bot.Serve.{
  HttpServer, RunEvent, cancelled, closed, failed, run_server, new_server, http_server, run_serve,
}

module _ {X : Type 0} (unmarshal : (Bytes → Option Bytes) → Option Config)
    (settings : Bytes → Option Bytes) (loading : Loading X) (eks : EksServer)
    (entries : eks.State) where
  -- A configuration from which the server is made: complete, for a region whose AWS settings load for
  -- both services; the server has the address, the time-outs and the roles of that configuration and
  -- an empty store.
  pub record IsServed (srv : HttpServer (Server eks)) : Type 0 where
    pub cfg : Config
    pub unmarshalled : unmarshal (set_defaults settings) ≡ some cfg
    pub complete : IsComplete cfg
    pub sts_loads : loading.sts_error cfg.aws.region ≡ none
    pub eks_loads : loading.eks_error cfg.aws.region ≡ none
    pub made : srv ≡ record {
      addr = codes ":" ++ cfg.server.port;
      handler = record {
        rbac = router_rbac cfg.auth.admin_users cfg.auth.approvers;
        store = record { clusters = []; accesses = [] };
        entries = entries;
      };
      read_timeout = cfg.server.read_timeout;
      write_timeout = cfg.server.write_timeout;
      idle_timeout = cfg.server.idle_timeout;
    }

  listens_with :
      (cfg : Config) (srv : HttpServer (Server eks))
      → load_from_viper unmarshal settings ≡ ok cfg
      → run_serve unmarshal settings (new_router loading eks entries) ≡ ok srv
      → IsServed srv
  unfolding run_serve new_server http_server new_router new_access_handler new_access_manager
      new_sts_service new_eks_service new_memory_store
  listens_with cfg srv loaded h =
      let (u, complete) = (load_from_viper_iff unmarshal settings cfg).0 loaded in
      elim (Option-cases (loading.sts_error cfg.aws.region)) [
        | inr (e, r) ↦ absurd (cc (rw (loaded, r, run_serve, new_server, new_router) at h))
        | inl sts ↦ elim (Option-cases (loading.eks_error cfg.aws.region)) [
          | inr (e, r) ↦ absurd (cc (rw (loaded, sts, r, run_serve, new_server, new_router) at h))
          | inl eks_none ↦ record {
            cfg = cfg;
            unmarshalled = u;
            complete = complete;
            sts_loads = sts;
            eks_loads = eks_none;
            made = cc (rw (loaded, sts, eks_none, run_serve, new_server, new_router) at h);
          }
        ]
      ]

  listens-IsServed :
      (srv : HttpServer (Server eks))
      → run_serve unmarshal settings (new_router loading eks entries) ≡ ok srv
      → IsServed srv
  unfolding run_serve
  listens-IsServed srv h = elim (Result-cases (load_from_viper unmarshal settings)) [
    | inr (e, l) ↦ absurd (cc (rw (l, run_serve) at h))
    | inl (cfg, l) ↦ listens_with cfg srv l h
  ]

  IsServed-listens :
      (srv : HttpServer (Server eks))
      → IsServed srv
      → run_serve unmarshal settings (new_router loading eks entries) ≡ ok srv
  unfolding run_serve new_server http_server new_router new_access_handler new_access_manager
      new_sts_service new_eks_service new_memory_store
  IsServed-listens srv s =
      rw
        (
          run_serve,
          (load_from_viper_iff unmarshal settings s.cfg).1 (s.unmarshalled, s.complete),
          new_server,
          new_router,
          s.sts_loads,
          s.eks_loads,
          s.made,
        )
        refl

-- The command serve comes to listen, with a given HTTP server, exactly if viper's settings with the
-- program's defaults unmarshal to a configuration whose token, signing secret and port are not empty,
-- and the AWS settings for its region load for STS and for EKS; the server then has the address `:` with
-- the port, the three time-outs and the administrators and approvers of that configuration, and an
-- empty store.
pub run_serve_iff :
    {X : Type 0} (unmarshal : (Bytes → Option Bytes) → Option Config)
    (settings : Bytes → Option Bytes) (loading : Loading X) (eks : EksServer) (entries : eks.State)
    (srv : HttpServer (Server eks))
    → (run_serve unmarshal settings (new_router loading eks entries) ≡ ok srv)
      ↔ IsServed unmarshal settings loading eks entries srv
run_serve_iff unmarshal settings loading eks entries srv = (
  listens-IsServed unmarshal settings loading eks entries srv,
  IsServed-listens unmarshal settings loading eks entries srv,
)

module _ {X : Type 0} where
  abbrev pub IsClosed : RunEvent X → Type 0
  IsClosed event = event ≡ closed

  -- A shutdown with this answer, behind nothing but a closed listener.
  abbrev pub IsShutDown : Option X → List (RunEvent X) → Type 0
  IsShutDown answer events =
      (p : List (RunEvent X) × List (RunEvent X)) × (All IsClosed p.0
        × (events ≡ p.0 ++ cancelled answer ∷ p.1))

  behind_closed :
      (answer : Option X) (events : List (RunEvent X))
      → IsShutDown answer events
      → IsShutDown answer (closed ∷ events)
  behind_closed answer events ((before, rest), (all_closed, e)) =
      ((closed ∷ before, rest), ((refl, all_closed), ap (λ (l : List (RunEvent X)). closed ∷ l) e))

  -- Run returns nil only where the context was done and Shutdown returned nil, with nothing but the end of
  -- a closed listener before it.
  pub run_server-nil :
      (events : List (RunEvent X)) → run_server events ≡ some none → IsShutDown none events
  unfolding run_server
  run_server-nil [] h = absurd cc
  run_server-nil (cancelled none ∷ events) h = (([], events), (tt, refl))
  run_server-nil (cancelled (some e) ∷ events) h = absurd cc
  run_server-nil (closed ∷ events) h = behind_closed none events (run_server-nil events h)
  run_server-nil (failed e ∷ events) h = absurd cc
