-- ===== src/Slack/K8s/Unmet.antt =====
-- getRequiredApprovers of pkg/slack/k8s_handler.go names teams, and HandleApproveCommand there records
-- the id of a user.
use mathlib.Core.Path.{subst}
use jit_bot.Base.{
  ◌≤◌, ◌≡◌, refl, sym, ◌⊎◌, inl, inr, true, false, ◌||◌, List, [], ◌∷◌, some, arith, Bytes, codes,
  Bool-cases, length, str_eq, str_eq_iff, contains_text,
}
use jit_bot.Base.Int.{ℤ}
use jit_bot.Auth.{Rbac}
use jit_bot.Webhook.Regex.{match_string, user_id_regex}
use jit_bot.Controller.Types.{
  JitAccessRequest, JitAccessRequestSpec, unset, pending, ObjectReference,
}
use jit_bot.Controller.Kube.{ApiServer, ApiError}
use jit_bot.Controller.Request.{is_view_only, is_required}
use jit_bot.Slack.{SlackCommand}
use jit_bot.Slack.K8s.{Flags, new_request, get_required_approvers, asks_elevated}
use jit_bot.Slack.K8s.Given.{command-IsWaiting}
use jit_bot.Slack.K8s.Teams.{
  Event, round, command, run_event, run_events, IsWaiting, round-IsWaiting,
}

-- Every command of a list is of a user whose id has the pattern of a Slack user.
abbrev pub IsOfUsers : List Event → Type 0
IsOfUsers [] = Unit
IsOfUsers (round now faults ∷ es) = IsOfUsers es
IsOfUsers (command now cmd args g u ∷ es) =
    (match_string user_id_regex cmd.user_id ≡ true) × IsOfUsers es

-- A user id that the pattern accepts is no text that it refuses.
no_team :
    (user team : Bytes)
    → match_string user_id_regex user ≡ true
    → match_string user_id_regex team ≡ false
    → str_eq user team ≡ false
no_team user team h refused = elim (Bool-cases (str_eq user team)) [
  | inr e ↦ e
  | inl e ↦
      let no : match_string user_id_regex team ≡ true =
        subst (λ s. match_string user_id_regex s ≡ true) ((str_eq_iff user team).0 e) h in
      absurd cc
]

required_of_user :
    (user cluster : Bytes) (permissions : List Bytes)
    → match_string user_id_regex user ≡ true
    → is_required user (get_required_approvers cluster permissions) ≡ false
unfolding get_required_approvers is_required match_string
required_of_user user cluster permissions h =
    let platform = no_team user (codes "platform-team") h refl in
    let sre = no_team user (codes "sre-team") h refl in
    elim (Bool-cases (contains_text (codes "prod") cluster)) [
      | inl e ↦ rw (e, is_required, platform, sre)
      | inr e ↦ elim (Bool-cases (asks_elevated permissions)) [
        | inl f ↦ rw (e, f, is_required, platform)
        | inr f ↦ rw (e, f, is_required)
      ]
    ]

some_approver :
    (cluster : Bytes) (permissions : List Bytes)
    → contains_text (codes "prod") cluster || asks_elevated permissions ≡ true
    → 1 ≤ length (get_required_approvers cluster permissions)
unfolding get_required_approvers length
some_approver cluster permissions h = elim (Bool-cases (contains_text (codes "prod") cluster)) [
  | inl e ↦ rw (e, length) (omega arith)
  | inr e ↦
      let elevated : asks_elevated permissions ≡ true = ground arith in
      rw (e, elevated, length) (omega arith)
]

-- A list of events that takes no required approver into account leaves a waiting request waiting.
events-IsWaiting :
    (api : ApiServer) (rbac : Rbac) (describe : ApiError → Bytes) (namespace : Bytes)
    (key : ObjectReference) (spec : JitAccessRequestSpec) (cluster : Bytes)
    → spec.approvers ≡ get_required_approvers cluster spec.permissions
    → contains_text (codes "prod") cluster || asks_elevated spec.permissions ≡ true
    → is_view_only spec.permissions ≡ false
    → (events : List Event) (k : api.State) → IsOfUsers events
    → IsWaiting api key spec k
    → IsWaiting api key spec (run_events api rbac describe namespace key events k)
unfolding run_events run_event
events-IsWaiting api rbac describe namespace key spec cluster named needs view [] k users w = w
events-IsWaiting api rbac describe namespace key spec cluster named needs view
      (round now faults ∷ es) k users w =
    events-IsWaiting api rbac describe namespace key spec cluster named needs view es _ users (
      round-IsWaiting api rbac describe namespace key spec view
        (subst (λ a. 1 ≤ length a) (sym named) (some_approver cluster spec.permissions needs)) now
        faults k w)
events-IsWaiting api rbac describe namespace key spec cluster named needs view
      (command now cmd args g u ∷ es) k users w =
    events-IsWaiting api rbac describe namespace key spec cluster named needs view es _ users.1 (
      command-IsWaiting api rbac describe namespace key spec now cmd args g u k
        (subst (λ a. is_required cmd.user_id a ≡ false) (sym named)
          (required_of_user cmd.user_id cluster spec.permissions users.0))
        w)

-- A request that HandleRequestCommand makes for a cluster with `prod` in its name or for an elevated
-- permission, and that does not ask for `view` alone, is never approved where every approval command is
-- of a user whose id has the pattern of a Slack user: after any rounds of the reconciler and any such
-- commands, in any order, whatever the server refuses, it is stored with the phase empty or Pending.
pub team_approvers_never_met :
    (api : ApiServer) (rbac : Rbac) (describe : ApiError → Bytes) (namespace : Bytes)
    (key : ObjectReference) (now : ℤ) (unix : Bytes) (cmd : SlackCommand)
    (cluster duration reason : Bytes) (flags : Flags) (events : List Event) (k : api.State)
    → contains_text (codes "prod") cluster || asks_elevated flags.permissions ≡ true
    → is_view_only flags.permissions ≡ false
    → IsOfUsers events
    → api.request_at key k ≡ some (new_request namespace now unix cmd cluster duration reason flags)
    → (req : JitAccessRequest) × (api.request_at key
          (run_events api rbac describe namespace key events k)
        ≡ some req)
      × ((req.status.phase ≡ unset) ⊎ (req.status.phase ≡ pending))
unfolding new_request
team_approvers_never_met api rbac describe namespace key now unix cmd cluster duration reason flags
      events k needs view users stored =
    let made = new_request namespace now unix cmd cluster duration reason flags in
    let w =
      events-IsWaiting api rbac describe namespace key made.spec cluster refl needs view events k
        users
        (record {
          request = made;
          stored = stored;
          same_spec = refl;
          waits = inl refl;
          unrelated = tt;
        }) in
    (w.request, w.stored, w.waits)
