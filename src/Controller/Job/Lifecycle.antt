-- ===== src/Controller/Job/Lifecycle.antt =====
-- How one round of the job reconciler moves the phase of a job
-- (pkg/controller/jitjob_controller.go).
use jit_bot.Base.{
  ℕ, ◌≡◌, refl, ◌∙◌, inl, inr, Bool, true, Option, none, some, Bool-cases, Option-cases, arith,
}
use jit_bot.Base.Int.{ℤ}
use jit_bot.Base.Result.{Result, ok, err, Result-cases}
use jit_bot.Aws.{EksServer}
use jit_bot.Access.{AccessCredentials, GrantAnswers, GrantError, grant_access}
use jit_bot.Controller.Types.{
  JitAccessRequest, JitAccessJob, JobPhase, unset_job, pending_job, creating, active_job, expiring,
  completed, failed, unknown_job, ObjectReference,
}
use jit_bot.Controller.Kube.{
  ApiServer, ApiError, Secret, get_request, get_job, update_job_status, create_secret,
  delete_secret, secret_key,
}
use jit_bot.Controller.Kube.Laws.{job_at_self, update_job_status_lem}
use jit_bot.Controller.Convert.{grant_request, credentials_secret, kube_config_secret}
use jit_bot.Controller.Job.{
  JobFaults, Library, job_updated, job_failed, handle_pending_job, store_credentials, after_grant,
  handle_creating_job, handle_active_job, delete_secret_of, clean_up, handle_expiring_job,
  handle_completed_job, dispatch, reconcile, has_passed,
}
use jit_bot.Controller.Job.Steps.{
  is_waiting, JobStep, stay, start, reject, grant, fail, expire, complete, JobStep-status, JobMoved,
}

module _ (api : ApiServer) (eks : EksServer) (now : ℤ) (faults : JobFaults) (answers : GrantAnswers)
    (key : ObjectReference) (lib : Library) (old : JitAccessJob) where
  kept : (k : api.State) → api.job_at key k ≡ some old → JobMoved api lib now key old k
  kept k h = record { new = old; stored = h; step = stay refl; same_spec = refl; same_meta = refl }

  stored-JobMoved :
      (new : JitAccessJob) (k : api.State)
      → JobStep lib now old new
      → JobMoved api lib now key old (api.put_job key (record old { status = new.status }) k)
  stored-JobMoved new k st = record {
    new = record old { status = new.status };
    stored = job_at_self api key (record old { status = new.status }) k;
    step = JobStep-status st;
    same_spec = refl;
    same_meta = refl;
  }

  written :
      (wait : ℕ) (new : JitAccessJob) (k : api.State) (s : eks.State)
      → api.job_at key k ≡ some old
      → JobStep lib now old new
      → JobMoved api lib now key old
          (job_updated api eks k s wait (update_job_status api faults.update key new k)).kube
  written wait new k s h st = elim (update_job_status_lem api faults.update key new old k h) [
    | inl (e, refusal) ↦ rw refusal (kept k h)
    | inr success ↦ rw success (stored-JobMoved new k st)
  ]

  written_error :
      (e : ApiError) (new : JitAccessJob) (k : api.State) (s : eks.State)
      → api.job_at key k ≡ some old
      → JobStep lib now old new
      → JobMoved api lib now key old
          (job_failed api eks k s e (update_job_status api faults.update key new k)).kube
  written_error e new k s h st = elim (update_job_status_lem api faults.update key new old k h) [
    | inl (_, refusal) ↦ rw refusal (kept k h)
    | inr success ↦ rw success (stored-JobMoved new k st)
  ]

  secret_same :
      (refuses : Bool) (secret : Secret) (k created : api.State)
      → create_secret api refuses secret k ≡ ok created
      → api.job_at key created ≡ api.job_at key k
  unfolding create_secret
  secret_same refuses secret k created e =
      ground (arith, api.job_at_put_secret (secret_key secret) key (some secret) k)

  delete_same :
      (refuses : Bool) (name : Option ObjectReference) (k : api.State)
      → api.job_at key (delete_secret_of api eks now faults answers key lib refuses name k)
        ≡ api.job_at key k
  unfolding delete_secret_of delete_secret
  delete_same refuses none k = refl
  delete_same refuses (some name) k = ground (arith, api.job_at_put_secret name key none k)

  pending-JobMoved :
      (k : api.State) (s : eks.State)
      → is_waiting old.status.phase ≡ true
      → api.job_at key k ≡ some old
      → JobMoved api lib now key old
          (handle_pending_job api eks now faults answers key lib old k s).kube
  unfolding handle_pending_job
  pending-JobMoved k s w h = elim (Option-cases (lib.parse_duration old.spec.duration)) [
    | inl e ↦ rw (e, handle_pending_job) (written _ _ k s h (reject w e refl refl refl refl))
    | inr (d, e) ↦ rw (e, handle_pending_job) (written _ _ k s h (start d w e refl refl refl))
  ]

  store-JobMoved :
      (req : JitAccessRequest) (creds : AccessCredentials) (k : api.State) (s : eks.State)
      → old.status.phase ≡ creating
      → api.job_at key k ≡ some old
      → JobMoved api lib now key old
          (store_credentials api eks now faults answers key lib req creds old k s).kube
  unfolding store_credentials
  store-JobMoved req creds k s p h =
      elim (Result-cases (
        create_secret api faults.create_credentials (credentials_secret lib.format_time old creds)
          k)) [
            | inr (x, e) ↦ rw (e, store_credentials) (kept k h)
            | inl (k1, e) ↦
                let h1 : api.job_at key k1 ≡ some old = secret_same _ _ k k1 e ∙ h in
                rw (e, store_credentials)
                  (elim (Result-cases (
                    create_secret api faults.create_kube_config
                      (kube_config_secret old creds.kube_config) k1)) [
                        | inr (x, f) ↦ rw f (kept k1 h1)
                        | inl (k2, f) ↦ rw f (
                            written _ _ k2 s (secret_same _ _ k1 k2 f ∙ h1)
                              (grant p refl refl refl))
                      ])
          ]

  after_grant-JobMoved :
      (req : JitAccessRequest) (k : api.State) (r : eks.State × Result GrantError AccessCredentials)
      → old.status.phase ≡ creating
      → api.job_at key k ≡ some old
      → JobMoved api lib now key old
          (after_grant api eks now faults answers key lib req old k r).kube
  unfolding after_grant
  after_grant-JobMoved req k (s, err e) p h =
      written_error _ _ k s h (fail p refl (refl, refl, refl))
  after_grant-JobMoved req k (s, ok creds) p h = store-JobMoved req creds k s p h

  creating-JobMoved :
      (k : api.State) (s : eks.State)
      → old.status.phase ≡ creating
      → api.job_at key k ≡ some old
      → JobMoved api lib now key old
          (handle_creating_job api eks now faults answers key lib old k s).kube
  unfolding handle_creating_job
  creating-JobMoved k s p h =
      elim (Result-cases (get_request api faults.get_request old.spec.access_request_ref k)) [
        | inr (x, e) ↦
            rw (e, handle_creating_job) (written_error _ _ k s h (fail p refl (refl, refl, refl)))
        | inl (req, e) ↦
            rw (e, handle_creating_job)
              (after_grant-JobMoved req k
                (grant_access eks answers (grant_request lib.parse_duration old req) s) p h)
      ]

  active-JobMoved :
      (k : api.State) (s : eks.State)
      → old.status.phase ≡ active_job
      → api.job_at key k ≡ some old
      → JobMoved api lib now key old
          (handle_active_job api eks now faults answers key lib old k s).kube
  unfolding handle_active_job
  active-JobMoved k s p h = elim (Bool-cases (has_passed now old.status.expiry_time)) [
    | inl e ↦ rw (e, handle_active_job) (written _ _ k s h (expire p e refl (refl, refl, refl)))
    | inr e ↦ rw (e, handle_active_job) (kept k h)
  ]

  pub clean_up_same :
      (k : api.State)
      → api.job_at key (clean_up api eks now faults answers key lib old k) ≡ api.job_at key k
  unfolding clean_up
  clean_up_same k = delete_same _ _ _ ∙ delete_same _ _ k

  expiring-JobMoved :
      (k : api.State) (s : eks.State)
      → old.status.phase ≡ expiring
      → api.job_at key k ≡ some old
      → JobMoved api lib now key old
          (handle_expiring_job api eks now faults answers key lib old k s).kube
  unfolding handle_expiring_job
  expiring-JobMoved k s p h =
      written _ _ _ _ (clean_up_same k ∙ h) (complete p refl refl (refl, refl, refl))

  dispatch-JobMoved :
      (p : JobPhase) (k : api.State) (s : eks.State)
      → old.status.phase ≡ p
      → api.job_at key k ≡ some old
      → JobMoved api lib now key old (dispatch api eks now faults answers key lib p old k s).kube
  unfolding dispatch handle_completed_job
  dispatch-JobMoved unset_job k s e h = pending-JobMoved k s (rw e refl) h
  dispatch-JobMoved pending_job k s e h = pending-JobMoved k s (rw e refl) h
  dispatch-JobMoved creating k s e h = creating-JobMoved k s e h
  dispatch-JobMoved active_job k s e h = active-JobMoved k s e h
  dispatch-JobMoved expiring k s e h = expiring-JobMoved k s e h
  dispatch-JobMoved completed k s e h = kept k h
  dispatch-JobMoved failed k s e h = kept k h
  dispatch-JobMoved (unknown_job _) k s e h = kept k h

-- In one round, whatever the servers refuse or answer, a stored job keeps its specification and
-- metadata, and its status stays or makes one move. An empty or Pending job starts only if its
-- duration parses, with the clock as its start and the duration behind it as its expiry, and fails
-- if it does not parse; a Creating job becomes Active or fails and keeps its times; an Active job
-- is Expiring only behind its expiry; an Expiring job is completed at the clock's time.
pub reconcile-JobMoved :
    (api : ApiServer) (eks : EksServer) (now : ℤ) (faults : JobFaults) (answers : GrantAnswers)
    (key : ObjectReference) (lib : Library) (old : JitAccessJob) (k : api.State) (s : eks.State)
    → api.job_at key k ≡ some old
    → JobMoved api lib now key old (reconcile api eks now faults answers key lib k s).kube
unfolding reconcile get_job
reconcile-JobMoved api eks now faults answers key lib old k s h = elim (Bool-cases faults.get) [
  | inl e ↦ rw (e, reconcile) (kept api eks now faults answers key lib old k h)
  | inr e ↦
      rw (e, h, reconcile, get_job)
        (dispatch-JobMoved api eks now faults answers key lib old old.status.phase k s refl h)
]
