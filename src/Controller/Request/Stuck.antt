-- ===== src/Controller/Request/Stuck.antt =====
-- What follows where the status of an approved request could not be written after its job had been
-- created (handleApprovedRequest of pkg/controller/jitaccess_controller.go).
use jit_bot.Base.{
  ◌≡◌, refl, ◌∙◌, ap, inl, inr, Bool, true, false, List, [], ◌∷◌, ◌++◌, none, some, Bytes, codes,
  Bool-cases,
}
use jit_bot.Base.Int.{ℤ}
use jit_bot.Base.Result.{err}
use jit_bot.Auth.{Rbac}
use jit_bot.Controller.Types.{
  JitAccessRequest, JitAccessJob, AccessPhase, approved, ObjectReference,
}
use jit_bot.Controller.Kube.{
  ApiServer, ApiError, get_request, update_request_status, create_job, job_key,
}
use jit_bot.Controller.Kube.Laws.{request_at_self, job_at_self, update_request_status_lem}
use jit_bot.Controller.Request.{
  Faults, with_message, owned_job, after_create, handle_approved, dispatch, reconcile, job_name,
}

-- An approved request whose job exists.
pub record IsStuck (api : ApiServer) (key : ObjectReference) (k : api.State) : Type 0 where
  pub request : JitAccessRequest
  pub stored : api.request_at key k ≡ some request
  pub is_approved : request.status.phase ≡ approved
  pub job : JitAccessJob
  pub has_job : api.job_at (job_key (owned_job request)) k ≡ some job

-- The rounds of the reconciler for one request, each with its clock and its refusals.
unfoldable pub run_rounds :
    (api : ApiServer)
    → Rbac
    → (ApiError → Bytes)
    → ObjectReference
    → List (ℤ × Faults)
    → api.State
    → api.State
run_rounds api rbac describe key [] k = k
run_rounds api rbac describe key ((now, faults) ∷ rest) k =
    run_rounds api rbac describe key rest (reconcile api rbac now faults key describe k).kube

module _ (api : ApiServer) (rbac : Rbac) (describe : ApiError → Bytes) (key : ObjectReference) where
  not_created :
      (refuses : Bool) (k : api.State) (s : IsStuck api key k)
      → (e : ApiError) × (create_job api refuses (owned_job s.request) k ≡ err e)
  not_created true k s = (ApiError.refused, unfold create_job in refl)
  not_created false k s = (ApiError.already_exists, unfold create_job in rw (s.has_job, create_job))

  after_create-IsStuck :
      (now : ℤ) (faults : Faults) (k : api.State) (s : IsStuck api key k) (e : ApiError)
      → IsStuck api key (after_create api rbac now faults key describe s.request k (err e)).kube
  unfolding after_create owned_job job_name
  after_create-IsStuck now faults k s e =
      let new = with_message (codes "Failed to create access job: " ++ describe e) s.request in
      elim (update_request_status_lem api faults.update key new s.request k s.stored) [
        | inl (_, refusal) ↦ rw (refusal, after_create) s
        | inr success ↦
            rw (success, after_create)
              (record {
                request = new;
                stored = request_at_self api key new k;
                is_approved = s.is_approved;
                job = s.job;
                has_job = api.job_at_put_request _ _ new k ∙ s.has_job;
              })
      ]

  round_approved :
      (now : ℤ) (faults : Faults) (k : api.State) (s : IsStuck api key k)
      → IsStuck api key (handle_approved api rbac now faults key describe s.request k).kube
  unfolding handle_approved
  round_approved now faults k s = elim (Bool-cases faults.set_owner) [
    | inl e ↦ rw e s
    | inr e ↦
        let (x, refusal) = not_created faults.create k s in
        simp (e, refusal) (after_create-IsStuck now faults k s x)
  ]

  round-IsStuck :
      (now : ℤ) (faults : Faults) (k : api.State)
      → IsStuck api key k
      → IsStuck api key (reconcile api rbac now faults key describe k).kube
  unfolding reconcile get_request
  round-IsStuck now faults k s = elim (Bool-cases faults.get) [
    | inl e ↦ rw (e, reconcile, get_request) s
    | inr e ↦
        rw (e, s.stored, reconcile, get_request)
          (rw
            (ap (λ (p : AccessPhase). dispatch api rbac now faults key describe p s.request k)
              s.is_approved)
            (unfold dispatch in round_approved now faults k s))
  ]

  run_rounds-IsStuck :
      (rounds : List (ℤ × Faults)) (k : api.State)
      → IsStuck api key k
      → IsStuck api key (run_rounds api rbac describe key rounds k)
  unfolding run_rounds
  run_rounds-IsStuck [] k s = s
  run_rounds-IsStuck ((now, faults) ∷ rest) k s =
      run_rounds-IsStuck rest _ (round-IsStuck now faults k s)

-- The answers of the server in a round where Create succeeds and the status is not written.
abbrev pub lost_update : Bool → Faults
lost_update refuses_job_get = record {
  get = false;
  get_job = refuses_job_get;
  set_owner = false;
  create = false;
  update = true;
}

lost_update-IsStuck :
    (api : ApiServer) (rbac : Rbac) (describe : ApiError → Bytes) (key : ObjectReference) (now : ℤ)
    (g : Bool) (k : api.State) (req : JitAccessRequest)
    → api.request_at key k ≡ some req
    → req.status.phase ≡ approved
    → api.job_at (job_key (owned_job req)) k ≡ none
    → IsStuck api key (reconcile api rbac now (lost_update g) key describe k).kube
unfolding reconcile get_request handle_approved create_job after_create update_request_status
lost_update-IsStuck api rbac describe key now g k req stored is_approved free =
    rw (stored, reconcile, get_request)
      (rw
        (ap (λ (p : AccessPhase). dispatch api rbac now (lost_update g) key describe p req k)
          is_approved)
        (unfold dispatch in
          rw (free, create_job)
            (record {
              request = req;
              stored = api.request_at_put_job _ key (owned_job req) k ∙ stored;
              is_approved = is_approved;
              job = owned_job req;
              has_job = job_at_self api (job_key (owned_job req)) (owned_job req) k;
            })))

-- If the job of an approved request has been created and the status that says so is not written,
-- then the request is Approved after every later sequence of rounds, whatever the clock and the
-- server's refusals: it never becomes Active.
pub lost_update_sticks :
    (api : ApiServer) (rbac : Rbac) (describe : ApiError → Bytes) (key : ObjectReference) (now : ℤ)
    (g : Bool) (k : api.State) (req : JitAccessRequest) (rounds : List (ℤ × Faults))
    → api.request_at key k ≡ some req
    → req.status.phase ≡ approved
    → api.job_at (job_key (owned_job req)) k ≡ none
    → (last : JitAccessRequest) × (api.request_at key (
          run_rounds api rbac describe key rounds
            (reconcile api rbac now (lost_update g) key describe k).kube)
        ≡ some last)
      × (last.status.phase ≡ approved)
lost_update_sticks api rbac describe key now g k req rounds stored is_approved free =
    let s =
      run_rounds-IsStuck api rbac describe key rounds _
        (lost_update-IsStuck api rbac describe key now g k req stored is_approved free) in
    (s.request, s.stored, s.is_approved)
