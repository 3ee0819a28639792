-- ===== src/Controller/Kube/Laws.antt =====
-- What a write to the API server's objects does where the object is there.
use jit_bot.Base.{◌≡◌, refl, ◌⊎◌, inl, inr, Bool, true, false, some}
use jit_bot.Base.Result.{ok, err}
use jit_bot.Base.Map.{beq_refl}
use jit_bot.Controller.Types.{JitAccessRequest, JitAccessJob, ObjectReference}
use jit_bot.Controller.Kube.{
  ApiServer, ApiError, refused, update_request_status, update_job_status, reference_eq,
}

module _ (api : ApiServer) where
  open api use {State, request_at, job_at, put_request, put_job}

  pub request_at_self :
      (key : ObjectReference) (r : JitAccessRequest) (k : State)
      → request_at key (put_request key r k) ≡ some r
  request_at_self key r k = rw (api.request_at_put_request key key r k) (rw (beq_refl key))

  pub job_at_self :
      (key : ObjectReference) (r : JitAccessJob) (k : State) → job_at key (put_job key r k) ≡ some r
  job_at_self key r k = rw (api.job_at_put_job key key r k) (rw (beq_refl key))

  pub update_request_status_lem :
      (refuses : Bool) (key : ObjectReference) (new old : JitAccessRequest) (k : State)
      → request_at key k ≡ some old
      → ((e : ApiError) × (update_request_status api refuses key new k ≡ err e))
        ⊎ (update_request_status api refuses key new k
            ≡ ok (put_request key (record old { status = new.status }) k))
  unfolding update_request_status
  update_request_status_lem true key new old k h = inl (refused, refl)
  update_request_status_lem false key new old k h = inr (rw (h, update_request_status))

  pub update_job_status_lem :
      (refuses : Bool) (key : ObjectReference) (new old : JitAccessJob) (k : State)
      → job_at key k ≡ some old
      → ((e : ApiError) × (update_job_status api refuses key new k ≡ err e))
        ⊎ (update_job_status api refuses key new k
            ≡ ok (put_job key (record old { status = new.status }) k))
  unfolding update_job_status
  update_job_status_lem true key new old k h = inl (refused, refl)
  update_job_status_lem false key new old k h = inr (rw (h, update_job_status))

  pub update_job_status_ok :
      (refuses : Bool) (key : ObjectReference) (new old : JitAccessJob) (k : State)
      → refuses ≡ false
      → job_at key k ≡ some old
      → update_job_status api refuses key new k
        ≡ ok (put_job key (record old { status = new.status }) k)
  unfolding update_job_status
  update_job_status_ok refuses key new old k e h = rw (e, h, update_job_status)
