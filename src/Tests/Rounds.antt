-- ===== src/Tests/Rounds.antt =====
-- Rounds of the reconciler on a server that keeps its objects in association lists.
use jit_bot.Base.{
  ◌+◌, ◌≤◌, ◌≡◌, refl, true, false, List, [], ◌∷◌, some, Bytes, codes, str_eq, arith,
}
use jit_bot.Base.Int.{pos}
use jit_bot.Auth.{
  new_rbac, user_has_permission, get_user_role, role_allows, role_permissions, has_permission,
}
use jit_bot.Base.Map.{lookup}
use jit_bot.Controller.Types.{
  JitAccessRequest, Approval, ObjectReference, approved, pending, active,
}
use jit_bot.Controller.Kube.{ApiError, job_key}
use jit_bot.Controller.Kube.Memory.{Kube, memory}
use jit_bot.Controller.Request.{
  Faults, reconcile, has_required_approvals, count_valid, is_required, should_auto_approve,
  owned_job,
}
use jit_bot.Controller.Request.Progress.{at_times, approved_becomes_active}
use jit_bot.Controller.Request.Settled.{rank, changes, changes-rank}
use jit_bot.Controller.Request.Phases.{Moved, reconcile-Moved}
use jit_bot.Controller.Request.Approvals.{
  member, required_approvals_sound, repeated_approval_suffices,
}
use jit_bot.Controller.Request.Stuck.{run_rounds, lost_update, lost_update_sticks}
use jit_bot.Tests.Admission.{alice_request}

abbrev two_approvals : List Approval
two_approvals =
    record { approver = codes "bob"; approved_at = pos 1; comment = [] }
    ∷ record { approver = codes "carol"; approved_at = pos 2; comment = [] }
    ∷ []

abbrev waiting : JitAccessRequest
waiting = record alice_request {
  spec = record (alice_request.spec) { approvers = codes "bob" ∷ codes "carol" ∷ [] };
  status = record (alice_request.status) { phase = pending; approvals = two_approvals };
}

abbrev twice_bob : JitAccessRequest
twice_bob = record waiting {
  status = record (waiting.status) {
    approvals =
        record { approver = codes "bob"; approved_at = pos 1; comment = [] }
        ∷ record { approver = codes "bob"; approved_at = pos 2; comment = [] }
        ∷ [];
  };
}

required_approvals_sound_example : member (codes "carol") (codes "bob" ∷ codes "carol" ∷ []) ≡ true
required_approvals_sound_example =
    required_approvals_sound waiting (codes "carol") (unfold str_eq in (refl, (refl, tt)))
      (unfold has_required_approvals in
        unfold count_valid in unfold is_required in unfold str_eq in refl)
      (unfold str_eq in refl)

repeated_approval_suffices_example : has_required_approvals twice_bob ≡ true
repeated_approval_suffices_example =
    repeated_approval_suffices twice_bob (codes "bob") (unfold str_eq in refl) (refl, (refl, tt))
      (omega arith)

abbrev pub request_key : ObjectReference
request_key = record { name = codes "req-1"; namespace = codes "jit" }

abbrev pub print : ApiError → Bytes
print e = codes "refused"

abbrev holding : JitAccessRequest → Kube
holding req = record { requests = (request_key, req) ∷ []; jobs = []; secrets = [] }

abbrev pub no_faults : Faults
no_faults = record {
  get = false;
  get_job = false;
  set_owner = false;
  create = false;
  update = false;
}

reconcile-Moved_example :
    Moved memory
      (new_rbac [])
      (pos 9)
      request_key
      waiting
      (reconcile memory (new_rbac []) (pos 9) no_faults request_key print (holding waiting)).kube
reconcile-Moved_example =
    reconcile-Moved memory (new_rbac []) (pos 9) no_faults request_key print waiting
      (holding waiting) (unfold lookup in unfold str_eq in refl)

abbrev approved_request : JitAccessRequest
approved_request = record waiting { status = record (waiting.status) { phase = approved } }

lost_update_sticks_example :
    (last : JitAccessRequest) × (memory.request_at request_key (
        run_rounds memory
          (new_rbac [])
          print
          request_key
          ((pos 10, no_faults) ∷ [])
          (reconcile memory
            (new_rbac [])
            (pos 9)
            (lost_update false)
            request_key
            print
            (holding approved_request)).kube)
      ≡ some last)
    × (last.status.phase ≡ approved)
lost_update_sticks_example =
    lost_update_sticks memory (new_rbac []) print request_key (pos 9) false
      (holding approved_request) approved_request ((pos 10, no_faults) ∷ [])
      (unfold lookup in unfold str_eq in refl) refl (unfold lookup in refl)

-- A request that is approved as nobody has to approve it.
approved_becomes_active_example :
    let k' =
      run_rounds memory
        (new_rbac [])
        print
        request_key
        (at_times (pos 9) (pos 10) (pos 11))
        (holding alice_request) in
    (last : JitAccessRequest) × (memory.request_at request_key k' ≡ some last)
    × (last.status.phase ≡ active)
    × (last.spec ≡ alice_request.spec)
    × (memory.job_at (job_key (owned_job alice_request)) k' ≡ some (owned_job alice_request))
approved_becomes_active_example =
    approved_becomes_active memory (new_rbac []) print request_key (pos 9) (pos 10) (pos 11)
      alice_request (holding alice_request) (unfold lookup in unfold str_eq in refl) refl
      (unfold should_auto_approve in
        unfold has_required_approvals in
        unfold user_has_permission in
        unfold get_user_role in
        unfold role_allows in
        unfold role_permissions in
        unfold has_permission in unfold lookup in unfold new_rbac in unfold str_eq in refl)
      (unfold lookup in refl)

changes-rank_example :
    changes memory
        (new_rbac [])
        print
        request_key
        ((pos 9, no_faults) ∷ (pos 10, no_faults) ∷ [])
        (holding waiting)
      + rank (waiting.status.phase)
    ≤ 4
changes-rank_example =
    changes-rank memory (new_rbac []) print request_key
      ((pos 9, no_faults) ∷ (pos 10, no_faults) ∷ []) (holding waiting) waiting
      (unfold lookup in unfold str_eq in refl)
