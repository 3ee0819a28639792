-- ===== src/Slack/K8s/Teams.antt =====
-- The approval commands of pkg/slack/k8s_handler.go against the approvals that the reconciler of
-- pkg/controller/jitaccess_controller.go asks for.
use mathlib.Core.Path.{subst}
use jit_bot.Base.{
  ℕ, ◌≤◌, ◌≡◌, refl, sym, ap, ◌⊎◌, inl, inr, Bool, false, ◌||◌, List, [], ◌∷◌, some, arith, Bytes,
  Bool-cases, All, length,
}
use jit_bot.Base.Int.{ℤ}
use jit_bot.Auth.{Rbac}
use jit_bot.Controller.Types.{
  JitAccessRequest, JitAccessRequestSpec, Approval, AccessPhase, unset, pending, ObjectReference,
}
use jit_bot.Controller.Kube.{ApiServer, ApiError, get_request, update_request_status, reply_updated}
use jit_bot.Controller.Kube.Laws.{request_at_self, update_request_status_lem}
use jit_bot.Controller.Request.{
  Faults, is_view_only, should_auto_approve, is_required, count_valid, has_required_approvals,
  submit, handle_pending, dispatch, reconcile,
}
use jit_bot.Slack.{SlackCommand}
use jit_bot.Slack.K8s.{handle_approve_command}

-- What happens to a server: a round of the reconciler, or an approval command of a user.
pub data Event : Type 0 where
  round : ℤ → Faults → Event
  command : ℤ → SlackCommand → List Bytes → Bool → Bool → Event

-- The approvals that are none of the required ones.
abbrev pub Unrelated : List Bytes → List Approval → Type 0
Unrelated approvers = All (λ a. is_required a.approver approvers ≡ false)

-- A request that waits: its specification is the given one, and no approval is a required one.
pub record IsWaiting (api : ApiServer) (key : ObjectReference) (spec : JitAccessRequestSpec)
    (k : api.State) : Type 0 where
  pub request : JitAccessRequest
  pub stored : api.request_at key k ≡ some request
  pub same_spec : request.spec ≡ spec
  pub waits : (request.status.phase ≡ unset) ⊎ (request.status.phase ≡ pending)
  pub unrelated : Unrelated spec.approvers request.status.approvals

count_valid-Unrelated :
    (approvers : List Bytes) (given : List Approval)
    → Unrelated approvers given
    → count_valid given approvers ≡ 0
unfolding count_valid
count_valid-Unrelated approvers [] h = refl
count_valid-Unrelated approvers (a ∷ given) h =
    ground (arith, count_valid-Unrelated approvers given h.1)

not_approved :
    (rbac : Rbac) (req : JitAccessRequest)
    → is_view_only req.spec.permissions ≡ false
    → 1 ≤ length req.spec.approvers
    → Unrelated req.spec.approvers req.status.approvals
    → should_auto_approve rbac req || has_required_approvals req ≡ false
unfolding should_auto_approve has_required_approvals
not_approved rbac req view some_approver h =
    ground (arith, count_valid-Unrelated req.spec.approvers req.status.approvals h)

module _ (api : ApiServer) (rbac : Rbac) (describe : ApiError → Bytes) (namespace : Bytes)
    (key : ObjectReference) where
  -- The server after an event.
  unfoldable pub run_event : Event → api.State → api.State
  run_event (round now faults) k = (reconcile api rbac now faults key describe k).kube
  run_event (command now cmd args refuses_get refuses_update) k =
      (handle_approve_command api rbac namespace now cmd refuses_get refuses_update args k).kube

  unfoldable pub run_events : List Event → api.State → api.State
  run_events [] k = k
  run_events (e ∷ es) k = run_events es (run_event e k)

module _ (api : ApiServer) (rbac : Rbac) (describe : ApiError → Bytes) (namespace : Bytes)
    (key : ObjectReference) (spec : JitAccessRequestSpec) where
  -- A waiting request that is written with a status which waits.
  rewritten :
      (old new : JitAccessRequest) (k : api.State)
      → old.spec ≡ spec
      → (new.status.phase ≡ unset) ⊎ (new.status.phase ≡ pending)
      → Unrelated spec.approvers new.status.approvals
      → IsWaiting api key spec (api.put_request key (record old { status = new.status }) k)
  rewritten old new k e p u = record {
    request = record old { status = new.status };
    stored = request_at_self api key (record old { status = new.status }) k;
    same_spec = e;
    waits = p;
    unrelated = u;
  }

  written :
      (wait : ℕ) (refuses : Bool) (new : JitAccessRequest) (k : api.State)
      (w : IsWaiting api key spec k)
      → (new.status.phase ≡ unset) ⊎ (new.status.phase ≡ pending)
      → Unrelated spec.approvers new.status.approvals
      → IsWaiting api key spec
          (reply_updated api k wait (update_request_status api refuses key new k)).kube
  written wait refuses new k w p u =
      elim (update_request_status_lem api refuses key new w.request k w.stored) [
        | inl (_, refusal) ↦ rw refusal w
        | inr success ↦ rw success (rewritten w.request new k w.same_spec p u)
      ]

  submit-IsWaiting :
      (now : ℤ) (faults : Faults) (k : api.State) (w : IsWaiting api key spec k)
      → IsWaiting api key spec (submit api rbac now faults key describe w.request k).kube
  unfolding submit
  submit-IsWaiting now faults k w = written _ _ _ k w (inr refl) w.unrelated

  pending-IsWaiting :
      is_view_only spec.permissions ≡ false
      → 1 ≤ length spec.approvers
      → (now : ℤ) (faults : Faults) (k : api.State) (w : IsWaiting api key spec k)
      → IsWaiting api key spec (handle_pending api rbac now faults key describe w.request k).kube
  unfolding handle_pending
  pending-IsWaiting view some_approver now faults k w =
      rw
        (not_approved rbac w.request
          (subst (λ p. is_view_only p.permissions ≡ false) (sym w.same_spec) view)
          (subst (λ p. 1 ≤ length p.approvers) (sym w.same_spec) some_approver)
          (subst (λ p. Unrelated p.approvers w.request.status.approvals) (sym w.same_spec)
            w.unrelated))
        w

  pub round-IsWaiting :
      is_view_only spec.permissions ≡ false
      → 1 ≤ length spec.approvers
      → (now : ℤ) (faults : Faults) (k : api.State) → IsWaiting api key spec k
      → IsWaiting api key spec (reconcile api rbac now faults key describe k).kube
  unfolding reconcile get_request
  round-IsWaiting view some_approver now faults k w = elim (Bool-cases faults.get) [
    | inl e ↦ rw (e, reconcile, get_request) w
    | inr e ↦
        rw (e, w.stored, reconcile, get_request)
          (elim w.waits [
            | inl p ↦
                rw
                  (ap (λ (q : AccessPhase). dispatch api rbac now faults key describe q w.request k)
                    p)
                  (unfold dispatch in submit-IsWaiting now faults k w)
            | inr p ↦
                rw
                  (ap (λ (q : AccessPhase). dispatch api rbac now faults key describe q w.request k)
                    p)
                  (unfold dispatch in pending-IsWaiting view some_approver now faults k w)
          ])
  ]
