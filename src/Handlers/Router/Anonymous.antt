-- ===== src/Handlers/Router/Anonymous.antt =====
-- What internal/handlers/router.go answers to a request that names no user.
use jit_bot.Base.{◌≡◌, refl, ◌⊎◌, inl, inr, Bool, true, false, List, Option, Bytes}
use jit_bot.Auth.{Permission, create_requests, view_requests, manage_clusters, manage_users}
use jit_bot.Aws.{EksServer}
use jit_bot.Webhook.Duration.{is_nil}
use jit_bot.Handlers.{
  HttpRequest, World, Decoders, Server, Answer, failed, with_user, missing_user_id,
  method_not_allowed,
}
use jit_bot.Handlers.Admin.{
  create_cluster_handler, list_clusters_handler, update_cluster_handler, delete_cluster_handler,
  manage_user,
}
use jit_bot.Handlers.Access.{grant_access_handler, revoke_access_handler}
use jit_bot.Handlers.Access.Views.{list_access, cleanup_access_handler, get_access_status}
use jit_bot.Handlers.Router.{
  Method, get, post, put, delete, other_method, Pattern, health, ready, clusters, users_role,
  access_grant, access_revoke, access, access_status, access_cleanup, serve_clusters, serve, is_get,
  is_post, only,
}

-- The paths of the API.
abbrev pub needs_user : Pattern → Bool
needs_user health = false
needs_user ready = false
needs_user _ = true

-- An answer to a request that names nobody: 401, or 405 where the method is not served.
abbrev pub Refused : (eks : EksServer) → Server eks → Server eks × Answer → Type 0
Refused eks s answer =
    (answer ≡ (s, failed 401 missing_user_id)) ⊎ (answer ≡ (s, failed 405 method_not_allowed))

module _ (eks : EksServer) (lib : Decoders) (listing : Bytes → eks.State → Option (List Bytes))
    (world : World) (req : HttpRequest) (s : Server eks) (nobody : is_nil req.user_id ≡ true) where
  no_user :
      (permission : Permission) (rest : Server eks × Answer)
      → with_user eks permission req.user_id s rest ≡ (s, failed 401 missing_user_id)
  unfolding with_user
  no_user permission rest = rw (nobody, with_user)

  only_refuses :
      (allowed : Bool) (answer : Server eks × Answer)
      → answer ≡ (s, failed 401 missing_user_id)
      → Refused eks s (only eks lib listing world req allowed s answer)
  only_refuses true answer e = inl e
  only_refuses false answer e = inr refl

  clusters-Refused : (m : Method) → Refused eks s (serve_clusters eks lib listing world req m s)
  unfolding serve_clusters list_clusters_handler create_cluster_handler update_cluster_handler
      delete_cluster_handler
  clusters-Refused get = inl (no_user view_requests _)
  clusters-Refused post = inl (no_user manage_clusters _)
  clusters-Refused put = inl (no_user manage_clusters _)
  clusters-Refused delete = inl (no_user manage_clusters _)
  clusters-Refused (other_method _) = inr refl

  -- A request with an empty user header to a path of the API is answered 401, or 405 where the path does not
  -- serve its method, and the whole state is as it was.
  pub serve_anonymous :
      (pattern : Pattern) (method : Method)
      → needs_user pattern ≡ true
      → Refused eks s (serve eks lib listing world req pattern method s)
  unfolding serve manage_user grant_access_handler revoke_access_handler list_access
      get_access_status cleanup_access_handler
  serve_anonymous health m h = absurd cc
  serve_anonymous ready m h = absurd cc
  serve_anonymous clusters m h = clusters-Refused m
  serve_anonymous users_role m h = inl (no_user manage_users _)
  serve_anonymous access_grant m h = only_refuses (is_post m) _ (no_user create_requests _)
  serve_anonymous access_revoke m h =
      only_refuses (is_post m) _ (rw (nobody, revoke_access_handler))
  serve_anonymous access m h = only_refuses (is_get m) _ (no_user view_requests _)
  serve_anonymous access_status m h = only_refuses (is_get m) _ (rw (nobody, get_access_status))
  serve_anonymous access_cleanup m h = only_refuses (is_post m) _ (no_user manage_clusters _)
