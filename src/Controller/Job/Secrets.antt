-- ===== src/Controller/Job/Secrets.antt =====
-- The two secrets of a job of pkg/controller/jitjob_controller.go: the round that grants and stores
-- them where the API server refuses nothing, and the deletion that clears them.
use jit_bot.Base.{
  ◌*◌, ◌≡◌, ap, ◌∙◌, inl, inr, false, none, some, Option-cases, Bool-cases, arith, str_eq,
}
use jit_bot.Base.Map.{beq_refl}
use jit_bot.Base.Result.{ok}
use jit_bot.Aws.{EksServer}
use jit_bot.Access.{AccessCredentials, grant_access}
use jit_bot.Webhook.Duration.{minute}
use jit_bot.Controller.Types.{JitAccessRequest, JitAccessJob, creating, ObjectReference}
use jit_bot.Controller.Kube.{
  ApiServer, Secret, key_eq, reference_eq, get_request, update_job_status, create_secret,
  delete_secret,
}
use jit_bot.Controller.Convert.{grant_request, credentials_secret, kube_config_secret}
use jit_bot.Controller.Job.{
  job_updated, with_access, credentials_ref, store_credentials, after_grant, handle_creating_job,
  delete_secret_of, clean_up, dispatch,
}
use jit_bot.Controller.Job.Timed.{JobRound}
use jit_bot.Controller.Job.Blocked.{credentials_name}
use jit_bot.Controller.Job.Rounds.{accepts_all_job, kube_config_name, after, dispatched, accepted}

module _ (api : ApiServer) (eks : EksServer) (key : ObjectReference) where
  names_differ : (job : JitAccessJob) → key_eq (credentials_name job) (kube_config_name job) ≡ false
  unfolding str_eq
  names_differ job = ground arith

  -- The objects with the two secrets of a job.
  abbrev pub with_secrets : Secret → Secret → JitAccessJob → api.State → api.State
  with_secrets c c' job k =
      api.put_secret (kube_config_name job) (some c')
        (api.put_secret (credentials_name job) (some c) k)

  second_free :
      (job : JitAccessJob) (c : Secret) (k : api.State)
      → api.secret_at (kube_config_name job) k ≡ none
      → api.secret_at (kube_config_name job) (api.put_secret (credentials_name job) (some c) k)
        ≡ none
  second_free job c k free =
      api.secret_at_put_secret (credentials_name job) (kube_config_name job) (some c) k
      ∙ rw (names_differ job) free

  still_stored :
      (job : JitAccessJob) (c c' : Secret) (k : api.State)
      → api.job_at key k ≡ some job
      → api.job_at key (with_secrets c c' job k) ≡ some job
  still_stored job c c' k stored =
      api.job_at_put_secret (kube_config_name job) key (some c')
        (api.put_secret (credentials_name job) (some c) k)
      ∙ (api.job_at_put_secret (credentials_name job) key (some c) k ∙ stored)

  secrets_stored :
      (r : JobRound) (job : JitAccessJob) (req : JitAccessRequest) (creds : AccessCredentials)
      (k : api.State) (s : eks.State)
      → api.secret_at (credentials_name job) k ≡ none
      → api.secret_at (kube_config_name job) k ≡ none
      → let c = credentials_secret r.lib.format_time job creds in
        let c' = kube_config_secret job creds.kube_config in
        store_credentials api eks r.now accepts_all_job r.answers key r.lib req creds job k s
        ≡ job_updated api eks (with_secrets c c' job k) s (5 * minute) (
            update_job_status api false key
              (with_access r.now r.lib.unix c c' req job)
              (with_secrets c c' job k))
  unfolding store_credentials create_secret credentials_secret kube_config_secret
  secrets_stored r job req creds k s free free' = rw (
    free,
    store_credentials,
    create_secret,
    second_free job (credentials_secret r.lib.format_time job creds) k free',
  )

  pub round_creating :
      (r : JobRound) (job : JitAccessJob) (req : JitAccessRequest) (creds : AccessCredentials)
      (k : api.State) (s s' : eks.State)
      → api.job_at key k ≡ some job
      → job.status.phase ≡ creating
      → api.request_at job.spec.access_request_ref k ≡ some req
      → grant_access eks r.answers (grant_request r.lib.parse_duration job req) s ≡ (s', ok creds)
      → api.secret_at (credentials_name job) k ≡ none
      → api.secret_at (kube_config_name job) k ≡ none
      → let c = credentials_secret r.lib.format_time job creds in
        let c' = kube_config_secret job creds.kube_config in
        after api eks key r k s ≡ record {
          kube =
              api.put_job key (with_access r.now r.lib.unix c c' req job) (with_secrets c c' job k);
          entries = s';
          requeue_after = 5 * minute;
          error = none;
        }
  unfolding dispatch handle_creating_job get_request after_grant
  round_creating r job req creds k s s' stored e known granted free free' =
      let c = credentials_secret r.lib.format_time job creds in
      let c' = kube_config_secret job creds.kube_config in
      dispatched api eks key r creating job k s stored e
      ∙ (rw (known, handle_creating_job, get_request)
            (ap (λ x. after_grant api eks r.now accepts_all_job r.answers key r.lib req job k x)
              granted)
          ∙ (secrets_stored r job req creds k s' free free'
              ∙ accepted api eks key (5 * minute) s' (with_access r.now r.lib.unix c c' req job) job
                  (with_secrets c c' job k) (with_secrets c c' job k)
                  (still_stored job c c' k stored)))

  delete_own :
      (r : JobRound) (job : JitAccessJob) (name : ObjectReference) (k : api.State)
      → api.secret_at name
          (delete_secret_of api eks r.now accepts_all_job r.answers key r.lib false (some name) k)
        ≡ none
  unfolding delete_secret_of delete_secret
  delete_own r job name k = elim (Option-cases (api.secret_at name k)) [
    | inl e ↦ rw (e, delete_secret) e
    | inr (old, e) ↦
        rw (e, delete_secret) (api.secret_at_put_secret name name none k ∙ rw (beq_refl name))
  ]

  delete_other :
      (r : JobRound) (job : JitAccessJob) (name other : ObjectReference) (k : api.State)
      → api.secret_at other k ≡ none
      → api.secret_at other
          (delete_secret_of api eks r.now accepts_all_job r.answers key r.lib false (some name) k)
        ≡ none
  unfolding delete_secret_of delete_secret
  delete_other r job name other k free = elim (Option-cases (api.secret_at name k)) [
    | inl e ↦ rw (e, delete_secret) free
    | inr (old, e) ↦
        rw (e, delete_secret)
          (api.secret_at_put_secret name other none k ∙ elim (Bool-cases (key_eq name other)) [
            | inl same ↦ rw same
            | inr differs ↦ rw differs free
          ])
  ]

  pub cleaned :
      (r : JobRound) (named job : JitAccessJob) (k : api.State)
      → credentials_ref job.status.access_entry ≡ some (credentials_name named)
      → job.status.kube_config_secret_ref ≡ some (kube_config_name named)
      → let k' = clean_up api eks r.now accepts_all_job r.answers key r.lib job k in
        (api.secret_at (credentials_name named) k' ≡ none)
        × (api.secret_at (kube_config_name named) k' ≡ none)
  unfolding clean_up
  cleaned r named job k c c' =
      rw (c, c')
        (
          delete_other r job (kube_config_name named) (credentials_name named) _
              (delete_own r job (credentials_name named) k),
          delete_own r job (kube_config_name named) _,
        )
