-- ===== src/Slack/K8s/Given.antt =====
-- What the approval command of pkg/slack/k8s_handler.go does to a request that waits.
use mathlib.Core.Path.{subst}
use jit_bot.Base.{
  ◌≡◌, refl, sym, ap, ◌∙◌, ◌⊎◌, inl, inr, Bool, true, false, List, [], ◌∷◌, some, Bytes, codes,
  Bool-cases, Option-cases, All-append, join,
}
use jit_bot.Base.Int.{ℤ}
use jit_bot.Auth.{Rbac, approve_requests, user_has_permission}
use jit_bot.Controller.Types.{
  JitAccessRequest, JitAccessRequestSpec, Approval, unset, pending, ObjectReference,
}
use jit_bot.Controller.Kube.{
  ApiServer, ApiError, key_eq, key_eq_iff, get_request, update_request_status,
}
use jit_bot.Controller.Request.{is_required}
use jit_bot.Slack.{SlackCommand}
use jit_bot.Slack.K8s.{with_approval, add_approval, handle_approve_command, approve_args}
use jit_bot.Slack.K8s.Teams.{Unrelated, IsWaiting}

module _ (api : ApiServer) (rbac : Rbac) (describe : ApiError → Bytes) (namespace : Bytes)
    (key : ObjectReference) (spec : JitAccessRequestSpec) where
  -- What an approval command may do: nothing, or one more approval of the user for the named request.
  abbrev Approved : ℤ → SlackCommand → Bytes → Bytes → api.State → api.State → Type 0
  Approved now cmd name comment k k' =
      (k' ≡ k)
      ⊎ ((req : JitAccessRequest) × (api.request_at (record { name = name; namespace = namespace })
              k
            ≡ some req)
          × (k'
              ≡ api.put_request (record { name = name; namespace = namespace })
                  (with_approval
                    (record { approver = cmd.user_id; approved_at = now; comment = comment }) req)
                  k))

  add_approval-Approved :
      (now : ℤ) (cmd : SlackCommand) (refuses_get refuses_update : Bool) (name comment : Bytes)
      (k : api.State)
      → Approved now cmd name comment k
          (add_approval api rbac namespace now cmd refuses_get refuses_update name comment k).kube
  unfolding add_approval get_request update_request_status
  add_approval-Approved now cmd true refuses_update name comment k = inl refl
  add_approval-Approved now cmd false refuses_update name comment k =
      elim (Option-cases (api.request_at (record { name = name; namespace = namespace }) k)) [
        | inl e ↦ rw (e, add_approval, get_request) (inl refl)
        | inr (req, e) ↦
            rw (e, add_approval, get_request)
              (elim (Bool-cases refuses_update) [
                | inl f ↦ rw (f, update_request_status) (inl refl)
                | inr f ↦ rw (f, e, update_request_status) (inr (req, refl, refl))
              ])
      ]

  Unrelated-with_approval :
      (approval : Approval) (req : JitAccessRequest)
      → is_required approval.approver spec.approvers ≡ false
      → Unrelated spec.approvers req.status.approvals
      → Unrelated spec.approvers (with_approval approval req).status.approvals
  Unrelated-with_approval approval req u h =
      All-append (λ a. is_required a.approver spec.approvers ≡ false) req.status.approvals
        (approval ∷ []) h (u, tt)

  put-IsWaiting :
      (name : Bytes) (approval : Approval) (req : JitAccessRequest) (k : api.State)
      → is_required approval.approver spec.approvers ≡ false
      → api.request_at (record { name = name; namespace = namespace }) k ≡ some req
      → IsWaiting api key spec k
      → IsWaiting api key spec (
          api.put_request
            (record { name = name; namespace = namespace })
            (with_approval approval req)
            k)
  put-IsWaiting name approval req k u e w =
      let named : ObjectReference = record { name = name; namespace = namespace } in
      let read = api.request_at_put_request named key (with_approval approval req) k in
      elim (Bool-cases (key_eq named key)) [
        | inr other ↦ record {
          request = w.request;
          stored = read ∙ rw other w.stored;
          same_spec = w.same_spec;
          waits = w.waits;
          unrelated = w.unrelated;
        }
        | inl same ↦
            let stored = ap (λ i. api.request_at i k) ((key_eq_iff named key).0 same) ∙ w.stored in
            let q : req ≡ w.request = cc (e, stored) in
            record {
              request = with_approval approval req;
              stored = read ∙ rw same refl;
              same_spec = ap (λ r. r.spec) q ∙ w.same_spec;
              waits =
                  subst (λ r. (r.status.phase ≡ unset) ⊎ (r.status.phase ≡ pending)) (sym q)
                    w.waits;
              unrelated =
                  Unrelated-with_approval approval req u
                    (subst (λ r. Unrelated spec.approvers r.status.approvals) (sym q) w.unrelated);
            }
      ]

  Approved-IsWaiting :
      (now : ℤ) (cmd : SlackCommand) (name comment : Bytes) (k k' : api.State)
      → is_required cmd.user_id spec.approvers ≡ false
      → Approved now cmd name comment k k'
      → IsWaiting api key spec k
      → IsWaiting api key spec k'
  Approved-IsWaiting now cmd name comment k k' u (inl e) w =
      subst (IsWaiting api key spec) (sym e) w
  Approved-IsWaiting now cmd name comment k k' u (inr (req, e, put)) w =
      subst (IsWaiting api key spec) (sym put) (put-IsWaiting name approval req k u e w)
    where
      approval : Approval
      approval = record { approver = cmd.user_id; approved_at = now; comment = comment }

  pub command-IsWaiting :
      (now : ℤ) (cmd : SlackCommand) (args : List Bytes) (refuses_get refuses_update : Bool)
      (k : api.State)
      → is_required cmd.user_id spec.approvers ≡ false
      → IsWaiting api key spec k
      → IsWaiting api key spec
          (handle_approve_command api rbac namespace now cmd refuses_get refuses_update args k).kube
  unfolding handle_approve_command approve_args
  command-IsWaiting now cmd args refuses_get refuses_update k u w =
      elim (Bool-cases (user_has_permission rbac cmd.user_id approve_requests)) [
        | inr e ↦ rw e w
        | inl e ↦ rw e (given args)
      ]
    where
      given :
          (args : List Bytes)
          → IsWaiting api key spec
              (approve_args api rbac namespace now cmd refuses_get refuses_update args k).kube
      given [] = w
      given (name ∷ words) =
          Approved-IsWaiting now cmd name (join words (codes " ")) k _ u
            (add_approval-Approved now cmd refuses_get refuses_update name (join words (codes " "))
              k)
            w
