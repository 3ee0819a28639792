-- ===== src/Controller/Job/Leftover.antt =====
-- What handleExpiringJob of pkg/controller/jitjob_controller.go leaves behind in EKS.
use jit_bot.Base.{ℕ, ◌≡◌, ◌≢◌, refl, ap, ◌∙◌, inl, inr, false, Option, some, Bytes, Bool-cases}
use jit_bot.Base.Int.{ℤ}
use jit_bot.Base.Result.{Result, ok, err}
use jit_bot.Aws.{EksServer, AccessEntry}
use jit_bot.Access.{GrantAnswers}
use jit_bot.Access.Revoke.{grant_key, revoke_keeps}
use jit_bot.Controller.Types.{JitAccessRequest, JitAccessJob, JobPhase, expiring, ObjectReference}
use jit_bot.Controller.Kube.{ApiServer, ApiError, get_request, get_job, update_job_status}
use jit_bot.Controller.Kube.Laws.{job_at_self, update_job_status_ok}
use jit_bot.Controller.Convert.{grant_request}
use jit_bot.Controller.Job.{
  JobFaults, Library, reconcile, job_updated, dispatch, handle_expiring_job, revoke_job, clean_up,
  with_completion,
}
use jit_bot.Controller.Job.Lifecycle.{clean_up_same}

module _ (api : ApiServer) (eks : EksServer) (now : ℤ) (faults : JobFaults) (answers : GrantAnswers)
    (key : ObjectReference) (lib : Library) where
  -- Where the entry stands that the job was granted for the request at a time.
  abbrev pub job_entry_at : Bytes → JitAccessJob → JitAccessRequest → eks.State → Option AccessEntry
  job_entry_at granted_at job req s =
      eks.entry_at (grant_key eks granted_at (grant_request lib.parse_duration job req)) s

  revoke_job_keeps :
      (job : JitAccessJob) (req : JitAccessRequest) (k : api.State) (s : eks.State)
      (granted_at : Bytes) (entry : AccessEntry)
      → api.request_at job.spec.access_request_ref k ≡ some req
      → job_entry_at granted_at job req s ≡ some entry
      → granted_at ≢ lib.timestamp
      → job_entry_at granted_at job req (revoke_job api eks now faults answers key lib job k s)
        ≡ some entry
  unfolding revoke_job get_request grant_request
  revoke_job_keeps job req k s granted_at entry stored there late =
      elim (Bool-cases faults.get_request) [
        | inl e ↦ rw (e, revoke_job, get_request) there
        | inr e ↦
            rw (e, stored, revoke_job, get_request)
              (revoke_keeps eks answers.aws granted_at lib.timestamp
                (grant_request lib.parse_duration job req) s entry there late)
      ]

  completes :
      (job : JitAccessJob) (k : api.State) (s : eks.State)
      → api.job_at key k ≡ some job
      → faults.update ≡ false
      → api.job_at key (handle_expiring_job api eks now faults answers key lib job k s).kube
        ≡ some (with_completion now job)
  unfolding handle_expiring_job
  completes job k s h u =
      let same = clean_up_same api eks now faults answers key lib job k ∙ h in
      rw (update_job_status_ok api faults.update key (with_completion now job) job _ u same)
        (job_at_self api key (with_completion now job) _)

  revokes :
      (job : JitAccessJob) (k : api.State) (s : eks.State)
      → (handle_expiring_job api eks now faults answers key lib job k s).entries
        ≡ revoke_job api eks now faults answers key lib job k s
  unfolding handle_expiring_job
  revokes job k s =
      updated_entries 0 (clean_up api eks now faults answers key lib job k) _
        (update_job_status api faults.update key (with_completion now job) _)
    where
      updated_entries :
          (wait : ℕ) (k' : api.State) (t : eks.State) (r : Result ApiError api.State)
          → (job_updated api eks k' t wait r).entries ≡ t
      updated_entries wait k' t (ok _) = refl
      updated_entries wait k' t (err _) = refl

-- An Expiring job whose round reads the job and writes its status is Completed after that round,
-- whatever the other calls answer; but the access entry that EKS holds for a grant of its request
-- at another time than the clock's is still there.
pub completion_leaves_entry :
    (api : ApiServer) (eks : EksServer) (now : ℤ) (faults : JobFaults) (answers : GrantAnswers)
    (key : ObjectReference) (lib : Library) (job : JitAccessJob) (req : JitAccessRequest)
    (k : api.State) (s : eks.State) (granted_at : Bytes) (entry : AccessEntry)
    → api.job_at key k ≡ some job
    → api.request_at job.spec.access_request_ref k ≡ some req
    → job.status.phase ≡ expiring
    → faults.get ≡ false
    → faults.update ≡ false
    → eks.entry_at (grant_key eks granted_at (grant_request lib.parse_duration job req)) s
      ≡ some entry
    → granted_at ≢ lib.timestamp
    → (api.job_at key (reconcile api eks now faults answers key lib k s).kube
        ≡ some (with_completion now job))
      × (eks.entry_at
            (grant_key eks granted_at (grant_request lib.parse_duration job req))
            (reconcile api eks now faults answers key lib k s).entries
          ≡ some entry)
unfolding reconcile get_job
completion_leaves_entry api eks now faults answers key lib job req k s granted_at entry h stored p g
      u there late =
    rw (g, h, reconcile, get_job)
      (rw (ap (λ (q : JobPhase). dispatch api eks now faults answers key lib q job k s) p) (
        unfold dispatch in
        (
          completes api eks now faults answers key lib job k s h u,
          ap (eks.entry_at (grant_key eks granted_at (grant_request lib.parse_duration job req)))
                (revokes api eks now faults answers key lib job k s)
              ∙ revoke_job_keeps api eks now faults answers key lib job req k s granted_at entry
                  stored there late,
        )))
