-- ===== src/Controller/Request/Phases.antt =====
-- How one round of the reconciler moves a request (pkg/controller/jitaccess_controller.go).
use jit_bot.Base.{
  ℕ, ◌≡◌, refl, ◌∙◌, inl, inr, Bool, true, ◌||◌, Option, none, some, arith, Bytes, Bool-cases,
  Option-cases, codes, ◌++◌,
}
use jit_bot.Base.Int.{ℤ}
use jit_bot.Base.Result.{ok, err, Result-cases}
use jit_bot.Auth.{Rbac}
use jit_bot.Controller.Types.{
  JitAccessRequest, JitAccessJob, JitAccessJobStatus, JobAccessEntry, AccessEntryStatus,
  AccessPhase, unset, pending, approved, denied, active, expired, revoked, unknown, ObjectReference,
}
use jit_bot.Controller.Kube.{
  ApiServer, ApiError, get_request, get_job, update_request_status, create_job, reply_updated,
  job_key,
}
use jit_bot.Controller.Kube.Laws.{request_at_self, update_request_status_lem}
use jit_bot.Controller.Request.{
  Faults, with_message, job_name, should_auto_approve, has_required_approvals, is_request_expired,
  submit, handle_pending, owned_job, after_create, handle_approved, handle_denied, copy_entry,
  sync_entry, sync_with_job, handle_active, handle_expired, dispatch, reconcile,
}

-- The moves of the phase, each with its guard on the request before the round.
pub data Step (rbac : Rbac) (now : ℤ) (old new : JitAccessRequest) : Type 0 where
  stay : new.status.phase ≡ old.status.phase → Step rbac now old new
  submitted : old.status.phase ≡ unset → new.status.phase ≡ pending → Step rbac now old new
  approve :
      old.status.phase ≡ pending
      → should_auto_approve rbac old || has_required_approvals old ≡ true
      → new.status.phase ≡ approved
      → Step rbac now old new
  provision : old.status.phase ≡ approved → new.status.phase ≡ active → Step rbac now old new
  expire :
      old.status.phase ≡ active
      → is_request_expired now old ≡ true
      → new.status.phase ≡ expired
      → Step rbac now old new

-- What a round makes of the request: one move, with the specification and the metadata unchanged.
pub record Moved (api : ApiServer) (rbac : Rbac) (now : ℤ) (key : ObjectReference)
    (old : JitAccessRequest) (k : api.State) : Type 0 where
  pub new : JitAccessRequest
  pub stored : api.request_at key k ≡ some new
  pub step : Step rbac now old new
  pub same_spec : new.spec ≡ old.spec
  pub same_meta : new.meta ≡ old.meta

-- A move is a matter of the new status alone.
Step-status :
    {rbac : Rbac} {now : ℤ} {old new : JitAccessRequest}
    → Step rbac now old new
    → Step rbac now old (record old { status = new.status })
Step-status (stay e) = stay e
Step-status (submitted e f) = submitted e f
Step-status (approve e g f) = approve e g f
Step-status (provision e f) = provision e f
Step-status (expire e g f) = expire e g f

module _ (api : ApiServer) (rbac : Rbac) (now : ℤ) (faults : Faults) (key : ObjectReference)
    (describe : ApiError → Bytes) (old : JitAccessRequest) where
  kept : (k : api.State) → api.request_at key k ≡ some old → Moved api rbac now key old k
  kept k h = record { new = old; stored = h; step = stay refl; same_spec = refl; same_meta = refl }

  stored-Moved :
      (new : JitAccessRequest) (k : api.State)
      → Step rbac now old new
      → Moved api rbac now key old (api.put_request key (record old { status = new.status }) k)
  stored-Moved new k st = record {
    new = record old { status = new.status };
    stored = request_at_self api key (record old { status = new.status }) k;
    step = Step-status st;
    same_spec = refl;
    same_meta = refl;
  }

  written :
      (wait : ℕ) (new : JitAccessRequest) (base k : api.State)
      → api.request_at key base ≡ some old
      → api.request_at key k ≡ some old
      → Step rbac now old new
      → Moved api rbac now key old
          (reply_updated api base wait (update_request_status api faults.update key new k)).kube
  written wait new base k hb hk st =
      elim (update_request_status_lem api faults.update key new old k hk) [
        | inl (e, refusal) ↦ rw refusal (kept base hb)
        | inr success ↦ rw success (stored-Moved new k st)
      ]

  pending-Moved :
      (k : api.State)
      → old.status.phase ≡ pending
      → api.request_at key k ≡ some old
      → Moved api rbac now key old (handle_pending api rbac now faults key describe old k).kube
  unfolding handle_pending
  pending-Moved k p h =
      elim (Bool-cases (should_auto_approve rbac old || has_required_approvals old)) [
        | inl e ↦ rw e (written _ _ k k h h (approve p e refl))
        | inr e ↦ rw e (kept k h)
      ]

  created_same :
      (refuses : Bool) (job : JitAccessJob) (k created : api.State)
      → create_job api refuses job k ≡ ok created
      → api.request_at key created ≡ api.request_at key k
  unfolding create_job
  created_same refuses job k created e =
      ground (arith, api.request_at_put_job (job_key job) key job k)

  refused-Moved :
      (e : ApiError) (k : api.State)
      → api.request_at key k ≡ some old
      → Moved api rbac now key old
          (after_create api rbac now faults key describe old k (err e)).kube
  unfolding after_create
  refused-Moved e k h =
      let new = with_message (codes "Failed to create access job: " ++ describe e) old in
      elim (update_request_status_lem api faults.update key new old k h) [
        | inl (_, refusal) ↦ rw (refusal, after_create) (kept k h)
        | inr success ↦ rw (success, after_create) (stored-Moved new k (stay refl))
      ]

  approved-Moved :
      (k : api.State)
      → old.status.phase ≡ approved
      → api.request_at key k ≡ some old
      → Moved api rbac now key old (handle_approved api rbac now faults key describe old k).kube
  unfolding handle_approved after_create
  approved-Moved k p h = elim (Bool-cases faults.set_owner) [
    | inl e ↦ rw e (kept k h)
    | inr e ↦ rw e (elim (Result-cases (create_job api faults.create (owned_job old) k)) [
      | inl (created, c) ↦
          let same : api.request_at key created ≡ some old = created_same _ _ k created c ∙ h in
          rw c (written _ _ created created same same (provision p refl))
      | inr (x, c) ↦ rw c (refused-Moved x k h)
    ])
  ]

  entry-Moved :
      (status : JitAccessJobStatus) (entry : JobAccessEntry) (k : api.State)
      → api.request_at key k ≡ some old
      → Moved api rbac now key old
          (copy_entry api rbac now faults key describe old status entry k).kube
  unfolding copy_entry
  entry-Moved status entry k h = elim (Option-cases status.start_time) [
    | inl e ↦ rw (e, copy_entry) (kept k h)
    | inr (started, e) ↦ elim (Option-cases status.expiry_time) [
      | inl f ↦ rw (e, f, copy_entry) (kept k h)
      | inr (expiry, f) ↦ rw (e, f, copy_entry) (written _ _ k k h h (stay refl))
    ]
  ]

  sync_entry-Moved :
      (status : JitAccessJobStatus) (je : Option JobAccessEntry) (re : Option AccessEntryStatus)
      (k : api.State)
      → api.request_at key k ≡ some old
      → Moved api rbac now key old
          (sync_entry api rbac now faults key describe old status je re k).kube
  unfolding sync_entry
  sync_entry-Moved status (some entry) none k h = entry-Moved status entry k h
  sync_entry-Moved status none re k h = kept k h
  sync_entry-Moved status (some entry) (some e) k h = kept k h

  sync-Moved :
      (k : api.State)
      → api.request_at key k ≡ some old
      → Moved api rbac now key old (sync_with_job api rbac now faults key describe old k).kube
  unfolding sync_with_job
  sync-Moved k h =
      elim (Result-cases (
        get_job api faults.get_job (record { name = job_name old; namespace = old.meta.namespace })
          k)) [
            | inl (job, e) ↦
                rw (e, sync_with_job)
                  (sync_entry-Moved job.status job.status.access_entry old.status.access_entry k h)
            | inr (x, e) ↦ rw (e, sync_with_job) (kept k h)
          ]

  active-Moved :
      (k : api.State)
      → old.status.phase ≡ active
      → api.request_at key k ≡ some old
      → Moved api rbac now key old (handle_active api rbac now faults key describe old k).kube
  unfolding handle_active
  active-Moved k p h = elim (Bool-cases (is_request_expired now old)) [
    | inl e ↦ rw e (written _ _ k k h h (expire p e refl))
    | inr e ↦ rw e (sync-Moved k h)
  ]

  dispatch-Moved :
      (p : AccessPhase) (k : api.State)
      → old.status.phase ≡ p
      → api.request_at key k ≡ some old
      → Moved api rbac now key old (dispatch api rbac now faults key describe p old k).kube
  unfolding dispatch submit handle_denied handle_expired
  dispatch-Moved unset k e h = written _ _ k k h h (submitted e refl)
  dispatch-Moved pending k e h = pending-Moved k e h
  dispatch-Moved approved k e h = approved-Moved k e h
  dispatch-Moved denied k e h = kept k h
  dispatch-Moved active k e h = active-Moved k e h
  dispatch-Moved expired k e h = kept k h
  dispatch-Moved revoked k e h = kept k h
  dispatch-Moved (unknown s) k e h = kept k h

-- In one round, whatever the server refuses, a stored request keeps its specification and metadata,
-- and its phase stays or makes one move: from empty to Pending; from Pending to Approved, only if
-- the request is approved automatically or has the approvals; from Approved to Active; from Active
-- to Expired, only if its entry has expired. Every other phase stays.
pub reconcile-Moved :
    (api : ApiServer) (rbac : Rbac) (now : ℤ) (faults : Faults) (key : ObjectReference)
    (describe : ApiError → Bytes) (old : JitAccessRequest) (k : api.State)
    → api.request_at key k ≡ some old
    → Moved api rbac now key old (reconcile api rbac now faults key describe k).kube
unfolding reconcile get_request
reconcile-Moved api rbac now faults key describe old k h = elim (Bool-cases faults.get) [
  | inl e ↦ rw (e, reconcile) (kept api rbac now faults key describe old k h)
  | inr e ↦
      rw (e, h, reconcile, get_request)
        (dispatch-Moved api rbac now faults key describe old old.status.phase k refl h)
]
