-- ===== src/Controller/Job/Timed.antt =====
-- That the request reconciler can read the times of a job (syncWithJob of
-- pkg/controller/jitaccess_controller.go): a job with an access entry has both times.
use mathlib.Core.Path.{subst}
use jit_bot.Base.{
  ℕ, ◌≡◌, ◌≢◌, refl, sym, ap, ◌∙◌, inl, inr, Bool, true, false, List, [], ◌∷◌, Option, none, some,
  Bytes, Bool-cases, Option-cases,
}
use jit_bot.Base.Int.{ℤ}
use jit_bot.Auth.{Rbac}
use jit_bot.Aws.{EksServer}
use jit_bot.Access.{GrantAnswers}
use jit_bot.Controller.Types.{
  JitAccessRequest, JitAccessRequestStatus, JitAccessJob, JitAccessJobStatus, JobAccessEntry,
  AccessEntryStatus, JobPhase, creating, ObjectReference,
}
use jit_bot.Controller.Kube.{
  ApiServer, ApiError, nil_dereference, get_job, update_request_status, job_key, reply_updated,
}
use jit_bot.Controller.Request.{Faults, owned_job, job_name, copy_entry, sync_entry, sync_with_job}
use jit_bot.Controller.Job.{JobFaults, Library, reconcile}
use jit_bot.Controller.Job.Steps.{JobStep, stay, start, reject, grant, fail, expire, complete}
use jit_bot.Controller.Job.Lifecycle.{reconcile-JobMoved}

abbrev pub is_creating : JobPhase → Bool
is_creating creating = true
is_creating _ = false

-- Either there is no access entry and none is being made, or both times are set.
pub data IsTimed (status : JitAccessJobStatus) : Type 0 where
  idle : is_creating status.phase ≡ false → status.access_entry ≡ none → IsTimed status
  timed : (t x : ℤ) → status.start_time ≡ some t → status.expiry_time ≡ some x → IsTimed status

not_creating : {p q : JobPhase} → p ≡ q → is_creating q ≡ false → is_creating p ≡ false
not_creating e f = ap is_creating e ∙ f

creating_idle : {p : JobPhase} → is_creating p ≡ false → p ≡ creating → ⊥
creating_idle f e = let g = ap is_creating e in cc

step-IsTimed :
    {lib : Library} {now : ℤ} {old new : JitAccessJob}
    → JobStep lib now old new
    → IsTimed old.status
    → IsTimed new.status
step-IsTimed {old = old} (stay e) w = subst (λ s. IsTimed s) (sym e) w
step-IsTimed (start d w p f s x) _ = timed _ _ s x
step-IsTimed (reject w p f s x a) (idle i n) = idle (not_creating f refl) (a ∙ n)
step-IsTimed (reject w p f s x a) (timed t y st ex) = timed _ _ s (x ∙ ex)
step-IsTimed (grant p f s x) (idle i n) = absurd (creating_idle i p)
step-IsTimed (grant p f s x) (timed t y st ex) = timed _ _ (s ∙ st) (x ∙ ex)
step-IsTimed (fail p f (s, x, a)) (idle i n) = idle (not_creating f refl) (a ∙ n)
step-IsTimed (fail p f (s, x, a)) (timed t y st ex) = timed _ _ (s ∙ st) (x ∙ ex)
step-IsTimed (expire p g f (s, x, a)) (idle i n) = idle (not_creating f refl) (a ∙ n)
step-IsTimed (expire p g f (s, x, a)) (timed t y st ex) = timed _ _ (s ∙ st) (x ∙ ex)
step-IsTimed (complete p f c (s, x, a)) (idle i n) = idle (not_creating f refl) (a ∙ n)
step-IsTimed (complete p f c (s, x, a)) (timed t y st ex) = timed _ _ (s ∙ st) (x ∙ ex)

-- The clock, the refusals, the answers and the libraries of a round.
pub record JobRound : Type 0 where
  pub now : ℤ
  pub faults : JobFaults
  pub answers : GrantAnswers
  pub lib : Library

-- The rounds of the job reconciler for one job.
unfoldable pub run_job_rounds :
    (api : ApiServer) (eks : EksServer)
    → ObjectReference
    → List JobRound
    → api.State
    → eks.State
    → api.State
run_job_rounds api eks key [] k s = k
run_job_rounds api eks key (r ∷ rest) k s =
    let reply = reconcile api eks r.now r.faults r.answers key r.lib k s in
    run_job_rounds api eks key rest reply.kube reply.entries

-- A stored job with its times.
abbrev pub HasTimed : (api : ApiServer) → ObjectReference → api.State → Type 0
HasTimed api key k = (job : JitAccessJob) × (api.job_at key k ≡ some job) × IsTimed job.status

run_job_rounds-HasTimed :
    (api : ApiServer) (eks : EksServer) (key : ObjectReference) (rounds : List JobRound)
    (k : api.State) (s : eks.State)
    → HasTimed api key k
    → HasTimed api key (run_job_rounds api eks key rounds k s)
unfolding run_job_rounds
run_job_rounds-HasTimed api eks key [] k s h = h
run_job_rounds-HasTimed api eks key (r ∷ rest) k s (job, stored, times) =
    let moved = reconcile-JobMoved api eks r.now r.faults r.answers key r.lib job k s stored in
    run_job_rounds-HasTimed api eks key rest _ _
      (moved.new, moved.stored, step-IsTimed moved.step times)

module _ (api : ApiServer) (rbac : Rbac) (now : ℤ) (faults : Faults) (key : ObjectReference)
    (describe : ApiError → Bytes) where
  updated_no_nil :
      (wait : ℕ) (req : JitAccessRequest) (k : api.State)
      → (reply_updated api k wait (update_request_status api faults.update key req k)).error
        ≢ some nil_dereference
  unfolding update_request_status
  updated_no_nil wait req k = elim (Bool-cases faults.update) [
    | inl e ↦ rw (e, update_request_status) (λ h. cc)
    | inr e ↦ elim (Option-cases (api.request_at key k)) [
      | inl f ↦ rw (e, f, update_request_status) (λ h. cc)
      | inr (old, f) ↦ rw (e, f, update_request_status) (λ h. cc)
    ]
  ]

  sync_entry_no_nil :
      (req : JitAccessRequest) (status : JitAccessJobStatus) (je : Option JobAccessEntry)
      (re : Option AccessEntryStatus) (k : api.State)
      → je ≡ status.access_entry
      → IsTimed status
      → (sync_entry api rbac now faults key describe req status je re k).error
        ≢ some nil_dereference
  unfolding sync_entry copy_entry
  sync_entry_no_nil req status none re k e w = λ h. cc
  sync_entry_no_nil req status (some entry) (some r) k e w = λ h. cc
  sync_entry_no_nil req status (some entry) none k e (idle i n) = absurd cc
  sync_entry_no_nil req status (some entry) none k e (timed t x st ex) =
      rw (st, ex, copy_entry) (updated_no_nil _ _ k)

  sync_no_nil :
      (req : JitAccessRequest) (k : api.State)
      → HasTimed api (record { name = job_name req; namespace = req.meta.namespace }) k
      → (sync_with_job api rbac now faults key describe req k).error ≢ some nil_dereference
  unfolding sync_with_job get_job
  sync_no_nil req k (job, stored, times) = elim (Bool-cases faults.get_job) [
    | inl e ↦ rw (e, sync_with_job, get_job) (λ h. cc)
    | inr e ↦
        rw (e, stored, sync_with_job, get_job)
          (sync_entry_no_nil req job.status job.status.access_entry req.status.access_entry k refl
            times)
  ]

-- From the job that a request creates, after any rounds of the job reconciler, syncWithJob of that
-- request, with whatever status, never reads through a nil time: it copies an access entry only
-- where the job has a start and an expiry.
pub sync-run_job_rounds :
    (api : ApiServer) (eks : EksServer) (rbac : Rbac) (now : ℤ) (faults : Faults)
    (key : ObjectReference) (describe : ApiError → Bytes) (req : JitAccessRequest)
    (status : JitAccessRequestStatus) (rounds : List JobRound) (k : api.State) (s : eks.State)
    → api.job_at (job_key (owned_job req)) k ≡ some (owned_job req)
    → (sync_with_job api rbac now faults key describe
        (record req { status = status })
        (run_job_rounds api eks (job_key (owned_job req)) rounds k s)).error
      ≢ some nil_dereference
unfolding owned_job job_name
sync-run_job_rounds api eks rbac now faults key describe req status rounds k s h =
    sync_no_nil api rbac now faults key describe (record req { status = status }) _
      (run_job_rounds-HasTimed api eks _ rounds k s (_, h, idle refl refl))
