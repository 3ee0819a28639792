-- ===== src/Controller/Job/Blocked.antt =====
-- What follows where the credentials secret of a Creating job is there already
-- (handleCreatingJob of pkg/controller/jitjob_controller.go).
use jit_bot.Base.{
  ◌≡◌, refl, ap, ◌∙◌, ◌⊎◌, inl, inr, Bool, true, false, List, [], ◌∷◌, ◌++◌, some, Bytes, codes,
  Bool-cases,
}
use jit_bot.Base.Int.{ℤ}
use jit_bot.Base.Result.{Result, ok, err, Result-cases}
use jit_bot.Aws.{EksServer}
use jit_bot.Access.{AccessCredentials, GrantAnswers, GrantError, grant_access}
use jit_bot.Controller.Types.{
  JitAccessRequest, JitAccessJob, JobPhase, creating, failed, ObjectReference,
}
use jit_bot.Controller.Kube.{
  ApiServer, ApiError, refused, already_exists, Secret, secret_key, get_request, get_job,
  update_job_status, create_secret,
}
use jit_bot.Controller.Kube.Laws.{job_at_self, update_job_status_lem}
use jit_bot.Controller.Convert.{grant_request, credentials_secret}
use jit_bot.Controller.Job.{
  JobFaults, Library, job_failed, with_failure, store_credentials, after_grant, handle_creating_job,
  handle_completed_job, dispatch, reconcile,
}
use jit_bot.Controller.Job.Timed.{JobRound, run_job_rounds}

-- The name of the credentials secret of a job.
abbrev pub credentials_name : JitAccessJob → ObjectReference
credentials_name job = record {
  name = codes "jit-credentials-" ++ job.meta.name;
  namespace = job.meta.namespace;
}

-- A job that is Creating or Failed, whose credentials secret exists.
pub record IsBlocked (api : ApiServer) (key : ObjectReference) (k : api.State) : Type 0 where
  pub job : JitAccessJob
  pub stored : api.job_at key k ≡ some job
  pub phase : (job.status.phase ≡ creating) ⊎ (job.status.phase ≡ failed)
  pub secret : Secret
  pub has_secret : api.secret_at (credentials_name job) k ≡ some secret

module _ (api : ApiServer) (eks : EksServer) (now : ℤ) (faults : JobFaults) (answers : GrantAnswers)
    (key : ObjectReference) (lib : Library) where
  failed-IsBlocked :
      (e : ApiError) (reason detail : Bytes) (k : api.State) (s : eks.State)
      (b : IsBlocked api key k)
      → IsBlocked api key
          (job_failed api eks k s e
            (update_job_status api faults.update key (with_failure now reason detail b.job) k)).kube
  failed-IsBlocked e reason detail k s b =
      let new = with_failure now reason detail b.job in
      elim (update_job_status_lem api faults.update key new b.job k b.stored) [
        | inl (_, refusal) ↦ rw refusal b
        | inr success ↦ rw success (record {
          job = new;
          stored = job_at_self api key new k;
          phase = inr refl;
          secret = b.secret;
          has_secret = api.secret_at_put_job key (credentials_name b.job) new k ∙ b.has_secret;
        })
      ]

  secret_exists :
      (refuses : Bool) (new : Secret) (k : api.State) (old : Secret)
      → api.secret_at (secret_key new) k ≡ some old
      → (e : ApiError) × (create_secret api refuses new k ≡ err e)
  unfolding create_secret
  secret_exists true new k old h = (refused, refl)
  secret_exists false new k old h = (already_exists, rw (h, create_secret))

  store-IsBlocked :
      (req : JitAccessRequest) (creds : AccessCredentials) (k : api.State) (s : eks.State)
      (b : IsBlocked api key k)
      → IsBlocked api key
          (store_credentials api eks now faults answers key lib req creds b.job k s).kube
  unfolding store_credentials credentials_secret
  store-IsBlocked req creds k s b =
      let (e, refusal) =
        secret_exists faults.create_credentials (credentials_secret lib.format_time b.job creds) k
          b.secret b.has_secret in
      rw (refusal, store_credentials) b

  grant-IsBlocked :
      (req : JitAccessRequest) (k : api.State) (r : eks.State × Result GrantError AccessCredentials)
      (b : IsBlocked api key k)
      → IsBlocked api key (after_grant api eks now faults answers key lib req b.job k r).kube
  unfolding after_grant
  grant-IsBlocked req k (s, err e) b = failed-IsBlocked _ _ _ k s b
  grant-IsBlocked req k (s, ok creds) b = store-IsBlocked req creds k s b

  creating-IsBlocked :
      (k : api.State) (s : eks.State) (b : IsBlocked api key k)
      → IsBlocked api key (handle_creating_job api eks now faults answers key lib b.job k s).kube
  unfolding handle_creating_job
  creating-IsBlocked k s b =
      elim (Result-cases (get_request api faults.get_request b.job.spec.access_request_ref k)) [
        | inr (x, e) ↦ rw (e, handle_creating_job) (failed-IsBlocked x _ _ k s b)
        | inl (req, e) ↦
            rw (e, handle_creating_job)
              (grant-IsBlocked req k
                (grant_access eks answers (grant_request lib.parse_duration b.job req) s) b)
      ]

  round-IsBlocked :
      (k : api.State) (s : eks.State)
      → IsBlocked api key k
      → IsBlocked api key (reconcile api eks now faults answers key lib k s).kube
  unfolding reconcile get_job
  round-IsBlocked k s b = elim (Bool-cases faults.get) [
    | inl e ↦ rw (e, reconcile, get_job) b
    | inr e ↦
        rw (e, b.stored, reconcile, get_job)
          (elim b.phase [
            | inl p ↦
                rw
                  (ap (λ (q : JobPhase). dispatch api eks now faults answers key lib q b.job k s) p)
                  (unfold dispatch in creating-IsBlocked k s b)
            | inr p ↦
                rw
                  (ap (λ (q : JobPhase). dispatch api eks now faults answers key lib q b.job k s) p)
                  (unfold dispatch in unfold handle_completed_job in b)
          ])
  ]

rounds-IsBlocked :
    (api : ApiServer) (eks : EksServer) (key : ObjectReference) (rounds : List JobRound)
    (k : api.State) (s : eks.State)
    → IsBlocked api key k
    → IsBlocked api key (run_job_rounds api eks key rounds k s)
unfolding run_job_rounds
rounds-IsBlocked api eks key [] k s b = b
rounds-IsBlocked api eks key (r ∷ rest) k s b =
    rounds-IsBlocked api eks key rest _ _
      (round-IsBlocked api eks r.now r.faults r.answers key r.lib k s b)

-- A Creating job whose credentials secret exists never becomes Active: after every sequence of
-- rounds, whatever the servers refuse or answer, it is Creating or Failed.
pub existing_secret_blocks :
    (api : ApiServer) (eks : EksServer) (key : ObjectReference) (rounds : List JobRound)
    (k : api.State) (s : eks.State) (job : JitAccessJob) (secret : Secret)
    → api.job_at key k ≡ some job
    → job.status.phase ≡ creating
    → api.secret_at (credentials_name job) k ≡ some secret
    → (last : JitAccessJob) × (api.job_at key (run_job_rounds api eks key rounds k s) ≡ some last)
      × ((last.status.phase ≡ creating) ⊎ (last.status.phase ≡ failed))
existing_secret_blocks api eks key rounds k s job secret h p there =
    let b =
      rounds-IsBlocked api eks key rounds k s
        (record { job = job; stored = h; phase = inl p; secret = secret; has_secret = there }) in
    (b.job, b.stored, b.phase)
