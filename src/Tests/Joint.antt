-- ===== src/Tests/Joint.antt =====
-- A request of alice and the job that it asks for, from its first round to the job's last.
use jit_bot.Base.{◌≡◌, refl, [], ◌∷◌, none, some}
use jit_bot.Base.Int.{pos, ◌+ℤ◌}
use jit_bot.Base.Map.{lookup}
use jit_bot.Base.{str_eq}
use jit_bot.Auth.{
  new_rbac, user_has_permission, get_user_role, role_allows, role_permissions, has_permission,
}
use jit_bot.Aws.Memory.{entries}
use jit_bot.Controller.Types.{JitAccessRequest, JitAccessJob, active, completed}
use jit_bot.Controller.Kube.Memory.{Kube, memory}
use jit_bot.Controller.Request.{should_auto_approve, has_required_approvals}
use jit_bot.Controller.Request.Stuck.{run_rounds}
use jit_bot.Controller.Request.Progress.{at_times}
use jit_bot.Controller.Job.Timed.{run_job_rounds}
use jit_bot.Controller.Job.Blocked.{credentials_name}
use jit_bot.Controller.Job.Rounds.{without_refusals, kube_config_name}
use jit_bot.Controller.Joint.{request_key, request_runs_through}
use jit_bot.Tests.Admission.{alice_request}
use jit_bot.Tests.Cloud.{handed_out}
use jit_bot.Tests.Rounds.{print}
use jit_bot.Tests.Jobs.{alice_job, new_job_key, round_at, entries_at_noon, noon_grant}

abbrev stored_request : Kube
stored_request = record {
  requests = (request_key alice_request, alice_request) ∷ [];
  jobs = [];
  secrets = [];
}

abbrev behind_request : Kube
behind_request =
    run_rounds memory (new_rbac []) print (request_key alice_request)
      (at_times (pos 6) (pos 7) (pos 8)) stored_request

abbrev behind_job : Kube
behind_job =
    run_job_rounds memory entries new_job_key
      (without_refusals (round_at (pos 9))
        ∷ without_refusals (round_at (pos 10))
        ∷ without_refusals (round_at (pos 7200000000010))
        ∷ without_refusals (round_at (pos 7200000000011))
        ∷ [])
      behind_request []

request_runs_through_example :
    (last : JitAccessRequest) × (memory.request_at (request_key alice_request) behind_request
      ≡ some last)
    × (last.status.phase ≡ active)
    × ((ended : JitAccessJob) × (memory.job_at new_job_key behind_job ≡ some ended)
        × (ended.status.phase ≡ completed)
        × (ended.status.completion_time ≡ some (pos 7200000000011))
        × (memory.secret_at (credentials_name alice_job) behind_job ≡ none)
        × (memory.secret_at (kube_config_name alice_job) behind_job ≡ none))
request_runs_through_example =
    request_runs_through memory entries (new_rbac []) print (pos 6) (pos 7) (pos 8)
      (round_at (pos 9)) (round_at (pos 10)) (round_at (pos 7200000000010))
      (round_at (pos 7200000000011)) alice_request (pos 7200000000000) handed_out stored_request []
      entries_at_noon (unfold lookup in unfold str_eq in refl) refl
      (unfold should_auto_approve in
        unfold has_required_approvals in
        unfold user_has_permission in
        unfold get_user_role in
        unfold role_allows in
        unfold role_permissions in
        unfold has_permission in unfold lookup in unfold new_rbac in unfold str_eq in refl)
      (unfold lookup in refl) (unfold lookup in refl) (unfold lookup in refl) refl noon_grant
      (unfold ◌+ℤ◌ in refl)
