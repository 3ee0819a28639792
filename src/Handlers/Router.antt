-- ===== src/Handlers/Router.antt =====
-- internal/handlers/router.go: which handler a request reaches. The pattern is the one that the
-- ServeMux selects for the path.
pub mod Rights
pub mod Anonymous
pub mod Life
use jit_bot.Base.Int.{ℤ}
use jit_bot.Base.{ℕ, Bool, true, false, List, Option, none, some, Bytes, codes}
use jit_bot.Aws.{EksServer}
use jit_bot.Slack.{SlackCommand}
use jit_bot.Slack.Middleware.{SlackRequest, SlackFailure, Verdict, rejected, passed, verify_request}
use jit_bot.Slack.Commands.{Message, form_error, handle_jit_command}
use jit_bot.Handlers.{
  HttpRequest, World, Decoders, Server, Answer, replied, failed, no_content, text_body,
  method_not_allowed,
}
use jit_bot.Handlers.Admin.{
  create_cluster_handler, list_clusters_handler, update_cluster_handler, delete_cluster_handler,
  manage_user,
}
use jit_bot.Handlers.Access.{grant_access_handler, revoke_access_handler}
use jit_bot.Handlers.Access.Views.{list_access, get_access_status, cleanup_access_handler}

pub data Method : Type 0 where
  get post put delete : Method
  other_method : Bytes → Method

pub data Pattern : Type 0 where
  health ready clusters users_role access_grant access_revoke access access_status : Pattern
  access_cleanup : Pattern

-- What a request to a path below /slack/ is answered.
pub data SlackAnswer : Type 0 where
  refused : ℕ → SlackFailure → SlackAnswer
  accepted : SlackAnswer
  said : Message → SlackAnswer

pub data SlackPath : Type 0 where
  events commands : SlackPath

abbrev pub is_get : Method → Bool
is_get get = true
is_get _ = false

abbrev pub is_post : Method → Bool
is_post post = true
is_post _ = false

module _ (eks : EksServer) (lib : Decoders) (listing : Bytes → eks.State → Option (List Bytes))
    (world : World) (req : HttpRequest) where
  abbrev pub not_allowed : Server eks → Server eks × Answer
  not_allowed s = (s, failed 405 method_not_allowed)

  -- A handler for one method alone.
  abbrev pub only : Bool → Server eks → (Server eks × Answer) → Server eks × Answer
  only true s answer = answer
  only false s answer = not_allowed s

  unfoldable pub serve_clusters : Method → Server eks → Server eks × Answer
  serve_clusters get s = list_clusters_handler eks lib world req s
  serve_clusters post s = create_cluster_handler eks lib world req s
  serve_clusters put s = update_cluster_handler eks lib world req s
  serve_clusters delete s = delete_cluster_handler eks lib world req s
  serve_clusters (other_method _) s = not_allowed s

  -- The paths that are not below /slack/.
  unfoldable pub serve : Pattern → Method → Server eks → Server eks × Answer
  serve health m s = (s, replied 200 (text_body (codes "OK")))
  serve ready m s = (s, replied 200 (text_body (codes "Ready")))
  serve clusters m s = serve_clusters m s
  serve users_role m s = manage_user eks lib world req s
  serve access_grant m s = only (is_post m) s (grant_access_handler eks lib listing world req s)
  serve access_revoke m s = only (is_post m) s (revoke_access_handler eks lib listing world req s)
  serve access m s = only (is_get m) s (list_access eks lib listing world req s)
  serve access_status m s = only (is_get m) s (get_access_status eks lib listing world req s)
  serve access_cleanup m s = only (is_post m) s (cleanup_access_handler eks lib listing world req s)

module _ (eks : EksServer) (world : World) where
  -- The two paths below /slack/, behind the middleware. `command_of` is ParseForm with the values
  -- of the form, `none` where it fails.
  unfoldable pub slack_path :
      (SlackRequest → Option SlackCommand)
      → SlackPath
      → SlackRequest
      → Server eks
      → Server eks × SlackAnswer
  slack_path command_of events req s = (s, accepted)
  slack_path command_of commands req s = elim (command_of req) [
    | none ↦ (s, said form_error)
    | some cmd ↦
        let (store, message) = handle_jit_command s.rbac world.now world.fresh_id cmd s.store in
        (record s { store = store }, said message)
  ]

  abbrev pub behind_verdict :
      (SlackRequest → Option SlackCommand)
      → SlackPath
      → Server eks
      → Verdict
      → Server eks × SlackAnswer
  behind_verdict command_of path s (rejected code failure) = (s, refused code failure)
  behind_verdict command_of path s (passed req) = slack_path command_of path req s

  unfoldable pub serve_slack :
      (Bytes → Bytes → Bytes)
      → (Bytes → Bytes → Option (Bytes → Bytes))
      → Bytes
      → ℤ
      → (SlackRequest → Option SlackCommand)
      → SlackPath
      → SlackRequest
      → Server eks
      → Server eks × SlackAnswer
  serve_slack hmac_hex form secret seconds command_of path req s =
      behind_verdict command_of path s (verify_request hmac_hex form secret seconds req)
