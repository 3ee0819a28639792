-- ===== src/Controller/Job/Rounds.antt =====
-- Rounds of pkg/controller/jitjob_controller.go in which the API server refuses nothing, for a job that
-- waits, is active or expires.
use jit_bot.Base.{ℕ, ◌≡◌, refl, ap, ◌∙◌, true, false, ◌++◌, none, some, codes}
use jit_bot.Base.Int.{ℤ}
use jit_bot.Aws.{EksServer}
use jit_bot.Webhook.Duration.{second}
use jit_bot.Controller.Types.{
  JitAccessJob, JobPhase, unset_job, pending_job, creating, active_job, expiring, completed, failed,
  unknown_job, ObjectReference,
}
use jit_bot.Controller.Kube.{ApiServer, reference_eq, get_job, update_job_status}
use jit_bot.Controller.Kube.Laws.{update_job_status_ok}
use jit_bot.Controller.Job.{
  JobFaults, JobReply, job_updated, with_start, with_job_phase, with_completion, has_passed,
  handle_pending_job, handle_active_job, clean_up, handle_expiring_job, dispatch, reconcile,
}
use jit_bot.Controller.Job.Steps.{is_waiting}
use jit_bot.Controller.Job.Lifecycle.{clean_up_same}
use jit_bot.Controller.Job.Timed.{JobRound}

abbrev pub accepts_all_job : JobFaults
accepts_all_job = record {
  get = false;
  get_request = false;
  create_credentials = false;
  create_kube_config = false;
  delete_credentials = false;
  delete_kube_config = false;
  update = false;
}

-- The round at the same time, with the same answers of AWS and libraries, in which nothing is refused.
abbrev pub without_refusals : JobRound → JobRound
without_refusals r = record r { faults = accepts_all_job }

-- The name of the second secret of a job.
abbrev pub kube_config_name : JitAccessJob → ObjectReference
kube_config_name job = record {
  name = codes "jit-kubeconfig-" ++ job.meta.name;
  namespace = job.meta.namespace;
}

abbrev pub as_expiring : ℤ → JitAccessJob → JitAccessJob
as_expiring now job =
    with_job_phase now expiring (codes "Expiring") (codes "AccessExpired")
      (codes "JIT access has expired and is being cleaned up") job

module _ (api : ApiServer) (eks : EksServer) (key : ObjectReference) where
  unfoldable pub after : JobRound → api.State → eks.State → JobReply api eks
  after r k s = reconcile api eks r.now accepts_all_job r.answers key r.lib k s

  pub dispatched :
      (r : JobRound) (p : JobPhase) (job : JitAccessJob) (k : api.State) (s : eks.State)
      → api.job_at key k ≡ some job
      → job.status.phase ≡ p
      → after r k s ≡ dispatch api eks r.now accepts_all_job r.answers key r.lib p job k s
  unfolding after reconcile get_job
  dispatched r p job k s stored e =
      rw (stored, reconcile, get_job)
        (ap (λ (q : JobPhase). dispatch api eks r.now accepts_all_job r.answers key r.lib q job k s)
          e)

  pub accepted :
      (wait : ℕ) (s : eks.State) (new job : JitAccessJob) (base k : api.State)
      → api.job_at key k ≡ some job
      → job_updated api eks base s wait (update_job_status api false key new k) ≡ record {
        kube = api.put_job key (record job { status = new.status }) k;
        entries = s;
        requeue_after = wait;
        error = none;
      }
  accepted wait s new job base k stored =
      rw (update_job_status_ok api false key new job k refl stored)

  pub round_waiting :
      (r : JobRound) (job : JitAccessJob) (duration : ℤ) (k : api.State) (s : eks.State)
      → api.job_at key k ≡ some job
      → is_waiting job.status.phase ≡ true
      → r.lib.parse_duration job.spec.duration ≡ some duration
      → after r k s ≡ record {
        kube = api.put_job key (with_start r.now duration job) k;
        entries = s;
        requeue_after = second;
        error = none;
      }
  unfolding dispatch handle_pending_job
  round_waiting r job duration k s stored waits parsed =
      dispatched r job.status.phase job k s stored refl
      ∙ (started job.status.phase waits
          ∙ rw (parsed, handle_pending_job)
              (accepted second s (with_start r.now duration job) job k k stored))
    where
      started :
          (p : JobPhase)
          → is_waiting p ≡ true
          → dispatch api eks r.now accepts_all_job r.answers key r.lib p job k s
            ≡ handle_pending_job api eks r.now accepts_all_job r.answers key r.lib job k s
      started unset_job e = refl
      started pending_job e = refl
      started creating e = absurd cc
      started active_job e = absurd cc
      started expiring e = absurd cc
      started completed e = absurd cc
      started failed e = absurd cc
      started (unknown_job _) e = absurd cc

  pub round_active :
      (r : JobRound) (job : JitAccessJob) (k : api.State) (s : eks.State)
      → api.job_at key k ≡ some job
      → job.status.phase ≡ active_job
      → has_passed r.now job.status.expiry_time ≡ true
      → after r k s ≡ record {
        kube = api.put_job key (as_expiring r.now job) k;
        entries = s;
        requeue_after = second;
        error = none;
      }
  unfolding dispatch handle_active_job
  round_active r job k s stored e passed =
      dispatched r active_job job k s stored e
      ∙ rw passed (accepted second s (as_expiring r.now job) job k k stored)

  pub round_expiring :
      (r : JobRound) (job : JitAccessJob) (k : api.State) (s : eks.State)
      → api.job_at key k ≡ some job
      → job.status.phase ≡ expiring
      → (after r k s).kube
        ≡ api.put_job key
            (with_completion r.now job)
            (clean_up api eks r.now accepts_all_job r.answers key r.lib job k)
  unfolding dispatch handle_expiring_job
  round_expiring r job k s stored e =
      let k' = clean_up api eks r.now accepts_all_job r.answers key r.lib job k in
      ap (λ (x : JobReply api eks). x.kube) (dispatched r expiring job k s stored e)
      ∙ ap (λ (x : JobReply api eks). x.kube)
          (accepted 0 _ (with_completion r.now job) job k' k'
            (clean_up_same api eks r.now accepts_all_job r.answers key r.lib job k ∙ stored))
