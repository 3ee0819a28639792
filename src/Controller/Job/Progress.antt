-- ===== src/Controller/Job/Progress.antt =====
-- Four rounds of pkg/controller/jitjob_controller.go, from a new job to a completed one.
use jit_bot.Base.{◌≡◌, refl, ap, ◌∙◌, true, [], ◌∷◌, none, some}
use jit_bot.Base.Int.{ℤ, ◌+ℤ◌, ltb_ℤ}
use jit_bot.Base.Result.{ok}
use jit_bot.Aws.{EksServer}
use jit_bot.Access.{AccessCredentials, grant_access}
use jit_bot.Controller.Types.{JitAccessRequest, JitAccessJob, completed, ObjectReference}
use jit_bot.Controller.Kube.{ApiServer, reference_eq}
use jit_bot.Controller.Kube.Laws.{job_at_self}
use jit_bot.Controller.Convert.{grant_request, credentials_secret, kube_config_secret}
use jit_bot.Controller.Job.{with_start, with_access, with_completion, clean_up}
use jit_bot.Controller.Job.Steps.{is_waiting}
use jit_bot.Controller.Job.Timed.{JobRound, run_job_rounds}
use jit_bot.Controller.Job.Blocked.{credentials_name}
use jit_bot.Controller.Job.Rounds.{
  accepts_all_job, without_refusals, kube_config_name, as_expiring, after, round_waiting,
  round_active, round_expiring,
}
use jit_bot.Controller.Job.Secrets.{with_secrets, round_creating, cleaned}

-- From a new job to a completed one in four rounds in which the API server refuses nothing: the duration
-- parses in the first, the access manager grants in the second, the expiry lies before the clock in
-- the third; the job's request is stored and the names of its two secrets are free. After the fourth
-- round the job is Completed at that round's time, and neither secret is left.
pub granted_job_completes :
    (api : ApiServer) (eks : EksServer) (key : ObjectReference) (r1 r2 r3 r4 : JobRound)
    (job : JitAccessJob) (req : JitAccessRequest) (duration : ℤ) (creds : AccessCredentials)
    (k : api.State) (s s' : eks.State)
    → api.job_at key k ≡ some job
    → is_waiting job.status.phase ≡ true
    → r1.lib.parse_duration job.spec.duration ≡ some duration
    → api.request_at job.spec.access_request_ref k ≡ some req
    → grant_access eks r2.answers (grant_request r2.lib.parse_duration job req) s ≡ (s', ok creds)
    → api.secret_at (credentials_name job) k ≡ none
    → api.secret_at (kube_config_name job) k ≡ none
    → ltb_ℤ (r1.now +ℤ duration) r3.now ≡ true
    → let k' =
        run_job_rounds api eks key
          (without_refusals r1
            ∷ without_refusals r2
            ∷ without_refusals r3
            ∷ without_refusals r4
            ∷ [])
          k
          s in
      (last : JitAccessJob) × (api.job_at key k' ≡ some last)
      × (last.status.phase ≡ completed)
      × (last.status.completion_time ≡ some r4.now)
      × (api.secret_at (credentials_name job) k' ≡ none)
      × (api.secret_at (kube_config_name job) k' ≡ none)
unfolding run_job_rounds after grant_request credentials_secret kube_config_secret
granted_job_completes api eks key r1 r2 r3 r4 job req duration creds k s s' stored waits parsed
      known granted free free' over =
    let j1 = with_start r1.now duration job in
    let k1 = api.put_job key j1 k in
    let c = credentials_secret r2.lib.format_time j1 creds in
    let c' = kube_config_secret j1 creds.kube_config in
    let j2 = with_access r2.now r2.lib.unix c c' req j1 in
    let k2 = api.put_job key j2 (with_secrets api eks key c c' j1 k1) in
    let j3 = as_expiring r3.now j2 in
    let k3 = api.put_job key j3 k2 in
    let j4 = with_completion r4.now j3 in
    let cleared = clean_up api eks r4.now accepts_all_job r4.answers key r4.lib j3 k3 in
    let e1 = round_waiting api eks key r1 job duration k s stored waits parsed in
    let e2 =
      round_creating api eks key r2 j1 req creds k1 s s' (job_at_self api key j1 k) refl
        (api.request_at_put_job key job.spec.access_request_ref j1 k ∙ known) granted
        (api.secret_at_put_job key (credentials_name job) j1 k ∙ free)
        (api.secret_at_put_job key (kube_config_name job) j1 k ∙ free') in
    let e3 = round_active api eks key r3 j2 k2 s' (job_at_self api key j2 _) refl over in
    let e4 = round_expiring api eks key r4 j3 k3 s' (job_at_self api key j3 k2) refl in
    let same : run_job_rounds api eks key
          (without_refusals r1
            ∷ without_refusals r2
            ∷ without_refusals r3
            ∷ without_refusals r4
            ∷ [])
          k s
        ≡ api.put_job key j4 cleared =
      ap
        (λ x.
          run_job_rounds api eks key
            (without_refusals r2 ∷ without_refusals r3 ∷ without_refusals r4 ∷ []) x.kube x.entries)
        e1
      ∙ (ap
            (λ x.
              run_job_rounds api eks key (without_refusals r3 ∷ without_refusals r4 ∷ []) x.kube
                x.entries)
            e2
          ∙ (ap (λ x. run_job_rounds api eks key (without_refusals r4 ∷ []) x.kube x.entries) e3
              ∙ e4)) in
    let gone = cleaned api eks key r4 job j3 k3 refl refl in
    (
      j4,
      ap (api.job_at key) same ∙ job_at_self api key j4 cleared,
      refl,
      refl,
      ap (api.secret_at (credentials_name job)) same
          ∙ (api.secret_at_put_job key (credentials_name job) j4 cleared ∙ gone.0),
      ap (api.secret_at (kube_config_name job)) same
          ∙ (api.secret_at_put_job key (kube_config_name job) j4 cleared ∙ gone.1),
    )
