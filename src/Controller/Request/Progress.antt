-- ===== src/Controller/Request/Progress.antt =====
-- Rounds of pkg/controller/jitaccess_controller.go in which the server refuses nothing.
use mathlib.Core.Path.{subst}
use jit_bot.Base.{
  ℕ, ◌≡◌, refl, sym, ◌∙◌, ap, true, false, ◌||◌, List, [], ◌∷◌, none, some, Bytes, codes,
}
use jit_bot.Base.Int.{ℤ}
use jit_bot.Auth.{Rbac}
use jit_bot.Controller.Types.{
  JitAccessRequest, AccessPhase, unset, pending, approved, active, ObjectReference,
}
use jit_bot.Controller.Kube.{
  ApiServer, ApiError, get_request, update_request_status, create_job, job_key, reply_updated,
}
use jit_bot.Controller.Kube.Laws.{request_at_self, job_at_self}
use jit_bot.Controller.Request.{
  Faults, should_auto_approve, has_required_approvals, owned_job, job_name, submit, handle_pending,
  after_create, handle_approved, dispatch, reconcile, with_phase,
}
use jit_bot.Controller.Request.Stuck.{run_rounds}

abbrev pub accepts_all : Faults
accepts_all = record {
  get = false;
  get_job = false;
  set_owner = false;
  create = false;
  update = false;
}

-- Three such rounds.
abbrev pub at_times : ℤ → ℤ → ℤ → List (ℤ × Faults)
at_times t1 t2 t3 = (t1, accepts_all) ∷ (t2, accepts_all) ∷ (t3, accepts_all) ∷ []

-- A request with the specification, the metadata and the approvals of another.
pub record IsLike (old new : JitAccessRequest) : Type 0 where
  pub same_spec : new.spec ≡ old.spec
  pub same_meta : new.meta ≡ old.meta
  pub same_approvals : new.status.approvals ≡ old.status.approvals

guard_like :
    (rbac : Rbac) (old new : JitAccessRequest)
    → IsLike old new
    → should_auto_approve rbac old || has_required_approvals old ≡ true
    → should_auto_approve rbac new || has_required_approvals new ≡ true
unfolding should_auto_approve has_required_approvals
guard_like rbac old new like h = rw (like.same_spec, like.same_approvals) h

job_like : (old new : JitAccessRequest) → IsLike old new → owned_job new ≡ owned_job old
unfolding owned_job job_name
job_like old new like = rw (like.same_spec, like.same_meta)

abbrev approval : ℤ → JitAccessRequest → JitAccessRequest
approval now req =
    with_phase now approved (codes "Request approved") (codes "Approved")
      (codes "RequiredApprovalsReceived") (codes "JIT access request has been approved") req

abbrev provision : ℤ → JitAccessRequest → JitAccessRequest
provision now req =
    with_phase now active (codes "Access provisioning in progress") (codes "Provisioning")
      (codes "JobCreated") (codes "JIT access job has been created") req

module _ (api : ApiServer) (rbac : Rbac) (describe : ApiError → Bytes) (key : ObjectReference) where
  unfoldable pub after : ℤ → api.State → api.State
  after now k = (reconcile api rbac now accepts_all key describe k).kube

  dispatched :
      (now : ℤ) (p : AccessPhase) (req : JitAccessRequest) (k : api.State)
      → api.request_at key k ≡ some req
      → req.status.phase ≡ p
      → after now k ≡ (dispatch api rbac now accepts_all key describe p req k).kube
  unfolding reconcile get_request after
  dispatched now p req k stored e =
      rw (stored, reconcile, get_request)
        (ap (λ (q : AccessPhase). (dispatch api rbac now accepts_all key describe q req k).kube) e)

  accepted :
      (wait : ℕ) (new req : JitAccessRequest) (base k : api.State)
      → api.request_at key k ≡ some req
      → (reply_updated api base wait (update_request_status api false key new k)).kube
        ≡ api.put_request key (record req { status = new.status }) k
  unfolding update_request_status
  accepted wait new req base k stored = rw (stored, update_request_status)

  round_unset :
      (now : ℤ) (req : JitAccessRequest) (k : api.State)
      → api.request_at key k ≡ some req
      → req.status.phase ≡ unset
      → (new : JitAccessRequest) × (after now k ≡ api.put_request key new k)
        × (new.status.phase ≡ pending)
        × IsLike req new
  unfolding dispatch submit
  round_unset now req k stored e = (
    _,
    dispatched now unset req k stored e ∙ accepted _ _ req k k stored,
    refl,
    record { same_spec = refl; same_meta = refl; same_approvals = refl },
  )

  round_pending :
      (now : ℤ) (req : JitAccessRequest) (k : api.State)
      → api.request_at key k ≡ some req
      → req.status.phase ≡ pending
      → should_auto_approve rbac req || has_required_approvals req ≡ true
      → (new : JitAccessRequest) × (after now k ≡ api.put_request key new k)
        × (new.status.phase ≡ approved)
        × IsLike req new
  unfolding dispatch handle_pending
  round_pending now req k stored e guard = (
    approval now req,
    dispatched now pending req k stored e ∙ rw guard (accepted _ (approval now req) req k k stored),
    refl,
    record { same_spec = refl; same_meta = refl; same_approvals = refl },
  )

  round_approved :
      (now : ℤ) (req : JitAccessRequest) (k : api.State)
      → api.request_at key k ≡ some req
      → req.status.phase ≡ approved
      → api.job_at (job_key (owned_job req)) k ≡ none
      → (new : JitAccessRequest) × (after now k
          ≡ api.put_request key new (api.put_job (job_key (owned_job req)) (owned_job req) k))
        × (new.status.phase ≡ active)
        × IsLike req new
  unfolding dispatch handle_approved create_job after_create
  round_approved now req k stored e free = (
    provision now req,
    dispatched now approved req k stored e
        ∙ rw (free, create_job)
            (accepted _ (provision now req) req _ _
              (api.request_at_put_job _ key (owned_job req) k ∙ stored)),
    refl,
    record { same_spec = refl; same_meta = refl; same_approvals = refl },
  )

  IsLike-trans : (r s t : JitAccessRequest) → IsLike r s → IsLike s t → IsLike r t
  IsLike-trans r s t a b = record {
    same_spec = b.same_spec ∙ a.same_spec;
    same_meta = b.same_meta ∙ a.same_meta;
    same_approvals = b.same_approvals ∙ a.same_approvals;
  }

  keeps_free :
      (req new : JitAccessRequest) (k : api.State)
      → api.job_at (job_key (owned_job req)) k ≡ none
      → api.job_at (job_key (owned_job req)) (api.put_request key new k) ≡ none
  keeps_free req new k free = rw (api.job_at_put_request key (job_key (owned_job req)) new k) free

  -- The three rounds, which leave the secrets alone.
  pub three_rounds :
      (t1 t2 t3 : ℤ) (req : JitAccessRequest) (k : api.State)
      → api.request_at key k ≡ some req
      → req.status.phase ≡ unset
      → should_auto_approve rbac req || has_required_approvals req ≡ true
      → api.job_at (job_key (owned_job req)) k ≡ none
      → (last : JitAccessRequest) × (base : api.State) × (after t3 (after t2 (after t1 k))
          ≡ api.put_request key last (api.put_job (job_key (owned_job req)) (owned_job req) base))
        × (last.status.phase ≡ active)
        × IsLike req last
        × ((x : ObjectReference) → api.secret_at x base ≡ api.secret_at x k)
  three_rounds t1 t2 t3 req k stored e guard free =
      let (r1, e1, p1, l1) = round_unset t1 req k stored e in
      let k1 = api.put_request key r1 k in
      let (r2, e2, p2, l2) =
        round_pending t2 r1 k1 (request_at_self api key r1 k) p1
          (guard_like rbac req r1 l1 guard) in
      let k2 = api.put_request key r2 k1 in
      let like = IsLike-trans req r1 r2 l1 l2 in
      let job = job_like req r2 like in
      let free2 : api.job_at (job_key (owned_job req)) k2 ≡ none =
        keeps_free req r2 k1 (keeps_free req r1 k free) in
      let (r3, e3, p3, l3) =
        round_approved t3 r2 k2 (request_at_self api key r2 k1) p2
          (subst (λ j. api.job_at (job_key j) k2 ≡ none) (sym job) free2) in
      (
        r3,
        k2,
        ap (λ x. after t3 (after t2 x)) e1
            ∙ (ap (after t3) e2
                ∙ (e3 ∙ ap (λ j. api.put_request key r3 (api.put_job (job_key j) j k2)) job)),
        p3,
        IsLike-trans req r2 r3 like l3,
        λ x. api.secret_at_put_request key x r2 k1 ∙ api.secret_at_put_request key x r1 k,
      )

-- A stored request whose phase is empty, which is approved automatically or has its approvals, and whose
-- job's name is free, is Active after three rounds in which the server refuses nothing, at whatever
-- times: it has the same specification, and the job that it asks for is stored.
pub approved_becomes_active :
    (api : ApiServer) (rbac : Rbac) (describe : ApiError → Bytes) (key : ObjectReference)
    (t1 t2 t3 : ℤ) (req : JitAccessRequest) (k : api.State)
    → api.request_at key k ≡ some req
    → req.status.phase ≡ unset
    → should_auto_approve rbac req || has_required_approvals req ≡ true
    → api.job_at (job_key (owned_job req)) k ≡ none
    → let k' = run_rounds api rbac describe key (at_times t1 t2 t3) k in
      (last : JitAccessRequest) × (api.request_at key k' ≡ some last)
      × (last.status.phase ≡ active)
      × (last.spec ≡ req.spec)
      × (api.job_at (job_key (owned_job req)) k' ≡ some (owned_job req))
unfolding run_rounds after
approved_becomes_active api rbac describe key t1 t2 t3 req k stored e guard free =
    let job = owned_job req in
    let (last, base, same, p, like, frame) =
      three_rounds api rbac describe key t1 t2 t3 req k stored e guard free in
    let k' = api.put_job (job_key job) job base in
    (
      last,
      ap (api.request_at key) same ∙ request_at_self api key last k',
      p,
      like.same_spec,
      ap (api.job_at (job_key job)) same
          ∙ (api.job_at_put_request key (job_key job) last k'
              ∙ job_at_self api (job_key job) job base),
    )
