-- ===== src/Controller/Joint.antt =====
-- Both reconcilers of pkg/controller one after the other: the rounds of a request, then those of the job
-- that it asks for.
use jit_bot.Base.{◌≡◌, refl, ◌∙◌, ap, true, ◌||◌, [], ◌∷◌, Option, none, some, Bytes}
use jit_bot.Base.Int.{ℤ, ◌+ℤ◌, ltb_ℤ}
use jit_bot.Base.Result.{ok}
use jit_bot.Auth.{Rbac}
use jit_bot.Aws.{EksServer}
use jit_bot.Access.{AccessCredentials, grant_access}
use jit_bot.Controller.Types.{
  JitAccessRequest, JitAccessJob, ObjectReference, unset, active, completed,
}
use jit_bot.Controller.Kube.{ApiServer, ApiError, job_key}
use jit_bot.Controller.Kube.Laws.{request_at_self, job_at_self}
use jit_bot.Controller.Convert.{grant_request, convert_to_cluster_access}
use jit_bot.Controller.Request.{should_auto_approve, has_required_approvals, owned_job}
use jit_bot.Controller.Request.Stuck.{run_rounds}
use jit_bot.Controller.Request.Progress.{IsLike, after, at_times, three_rounds}
use jit_bot.Controller.Job.Timed.{JobRound, run_job_rounds}
use jit_bot.Controller.Job.Blocked.{credentials_name}
use jit_bot.Controller.Job.Rounds.{without_refusals, kube_config_name}
use jit_bot.Controller.Job.Progress.{granted_job_completes}

-- The key under which a request is stored.
abbrev pub request_key : JitAccessRequest → ObjectReference
request_key req = record { name = req.meta.name; namespace = req.meta.namespace }

grant_request_like :
    (parse_duration : Bytes → Option ℤ) (job : JitAccessJob) (old new : JitAccessRequest)
    → IsLike old new
    → grant_request parse_duration job new ≡ grant_request parse_duration job old
unfolding grant_request convert_to_cluster_access
grant_request_like parse_duration job old new like = rw (like.same_spec, like.same_meta)

module _ (api : ApiServer) (rbac : Rbac) (describe : ApiError → Bytes) (t1 t2 t3 : ℤ)
    (req : JitAccessRequest) (k : api.State) where
  abbrev pub wanted : JitAccessJob
  wanted = owned_job req

  abbrev pub behind_request : api.State
  behind_request = run_rounds api rbac describe (request_key req) (at_times t1 t2 t3) k

  -- What the rounds of the request leave behind.
  record IsProvisioned (last : JitAccessRequest) : Type 0 where
    stored : api.request_at (request_key req) behind_request ≡ some last
    is_active : last.status.phase ≡ active
    like : IsLike req last
    made : api.job_at (job_key wanted) behind_request ≡ some wanted
    frame : (x : ObjectReference) → api.secret_at x behind_request ≡ api.secret_at x k

  provisioned :
      api.request_at (request_key req) k ≡ some req
      → req.status.phase ≡ unset
      → should_auto_approve rbac req || has_required_approvals req ≡ true
      → api.job_at (job_key wanted) k ≡ none
      → (last : JitAccessRequest) × IsProvisioned last
  unfolding run_rounds after
  provisioned stored e guard free =
      let key = request_key req in
      let (last, base, same, p, like, frame) =
        three_rounds api rbac describe key t1 t2 t3 req k stored e guard free in
      let k' = api.put_job (job_key wanted) wanted base in
      (
        last,
        record {
          stored = ap (api.request_at key) same ∙ request_at_self api key last k';
          is_active = p;
          like = like;
          made =
              ap (api.job_at (job_key wanted)) same
              ∙ (api.job_at_put_request key (job_key wanted) last k'
                  ∙ job_at_self api (job_key wanted) wanted base);
          frame = λ x.
              ap (api.secret_at x) same
              ∙ (api.secret_at_put_request key x last k'
                  ∙ (api.secret_at_put_job (job_key wanted) x wanted base ∙ frame x));
        },
      )

-- From a new request to a completed job: a request whose phase is empty, which is approved automatically or
-- has its approvals, is stored under its own name, and the names of its job and of the job's two
-- secrets are free. The API server refuses nothing in three rounds of the request and then four of its
-- job, in the first of which the duration parses, in the second the access manager grants, and the
-- expiry lies before the clock of the third. Then the request is Active behind its rounds, and
-- behind those of the job the job is Completed at the time of the last round and neither secret is
-- left.
pub request_runs_through :
    (api : ApiServer) (eks : EksServer) (rbac : Rbac) (describe : ApiError → Bytes) (t1 t2 t3 : ℤ)
    (r1 r2 r3 r4 : JobRound) (req : JitAccessRequest) (duration : ℤ) (creds : AccessCredentials)
    (k : api.State) (s s' : eks.State)
    → api.request_at (request_key req) k ≡ some req
    → req.status.phase ≡ unset
    → should_auto_approve rbac req || has_required_approvals req ≡ true
    → api.job_at (job_key (owned_job req)) k ≡ none
    → api.secret_at (credentials_name (owned_job req)) k ≡ none
    → api.secret_at (kube_config_name (owned_job req)) k ≡ none
    → r1.lib.parse_duration req.spec.duration ≡ some duration
    → grant_access eks r2.answers (grant_request r2.lib.parse_duration (owned_job req) req) s
      ≡ (s', ok creds)
    → ltb_ℤ (r1.now +ℤ duration) r3.now ≡ true
    → let job = owned_job req in
      let k1 = run_rounds api rbac describe (request_key req) (at_times t1 t2 t3) k in
      let k2 =
        run_job_rounds api eks
          (job_key job)
          (without_refusals r1
            ∷ without_refusals r2
            ∷ without_refusals r3
            ∷ without_refusals r4
            ∷ [])
          k1
          s in
      (last : JitAccessRequest) × (api.request_at (request_key req) k1 ≡ some last)
      × (last.status.phase ≡ active)
      × ((ended : JitAccessJob) × (api.job_at (job_key job) k2 ≡ some ended)
          × (ended.status.phase ≡ completed)
          × (ended.status.completion_time ≡ some r4.now)
          × (api.secret_at (credentials_name job) k2 ≡ none)
          × (api.secret_at (kube_config_name job) k2 ≡ none))
unfolding owned_job
request_runs_through api eks rbac describe t1 t2 t3 r1 r2 r3 r4 req duration creds k s s' stored e
      guard free free1 free2 parsed granted over =
    let job = owned_job req in
    let k1 = run_rounds api rbac describe (request_key req) (at_times t1 t2 t3) k in
    let (last, p) = provisioned api rbac describe t1 t2 t3 req k stored e guard free in
    let asked =
      ap (λ g. grant_access eks r2.answers g s)
        (grant_request_like r2.lib.parse_duration job req last p.like)
      ∙ granted in
    (
      last,
      p.stored,
      p.is_active,
      granted_job_completes api eks (job_key job) r1 r2 r3 r4 job last duration creds k1 s s' p.made
          refl parsed p.stored asked (p.frame (credentials_name job) ∙ free1)
          (p.frame (kube_config_name job) ∙ free2) over,
    )
