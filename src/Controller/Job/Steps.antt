-- ===== src/Controller/Job/Steps.antt =====
-- The moves that a round of the job reconciler may make
-- (pkg/controller/jitjob_controller.go).
use jit_bot.Base.{◌≡◌, Bool, true, false, none, some}
use jit_bot.Base.Int.{ℤ, ◌+ℤ◌}
use jit_bot.Controller.Types.{
  JitAccessJob, JobPhase, unset_job, pending_job, creating, active_job, expiring, completed, failed,
  ObjectReference,
}
use jit_bot.Controller.Kube.{ApiServer}
use jit_bot.Controller.Job.{Library, has_passed}

-- A phase that handlePendingJob takes.
abbrev pub is_waiting : JobPhase → Bool
is_waiting unset_job = true
is_waiting pending_job = true
is_waiting _ = false

-- The times and the access entry stay.
abbrev pub SameRun : JitAccessJob → JitAccessJob → Type 0
SameRun old new =
    (new.status.start_time ≡ old.status.start_time)
    × (new.status.expiry_time ≡ old.status.expiry_time)
    × (new.status.access_entry ≡ old.status.access_entry)

-- The moves of a job, each with its guard on the job before the round.
pub data JobStep (lib : Library) (now : ℤ) (old new : JitAccessJob) : Type 0 where
  stay : new.status ≡ old.status → JobStep lib now old new
  start :
      (duration : ℤ)
      → is_waiting old.status.phase ≡ true
      → lib.parse_duration old.spec.duration ≡ some duration
      → new.status.phase ≡ creating
      → new.status.start_time ≡ some now
      → new.status.expiry_time ≡ some (now +ℤ duration)
      → JobStep lib now old new
  reject :
      is_waiting old.status.phase ≡ true
      → lib.parse_duration old.spec.duration ≡ none
      → new.status.phase ≡ failed
      → new.status.start_time ≡ some now
      → new.status.expiry_time ≡ old.status.expiry_time
      → new.status.access_entry ≡ old.status.access_entry
      → JobStep lib now old new
  grant :
      old.status.phase ≡ creating
      → new.status.phase ≡ active_job
      → new.status.start_time ≡ old.status.start_time
      → new.status.expiry_time ≡ old.status.expiry_time
      → JobStep lib now old new
  fail :
      old.status.phase ≡ creating
      → new.status.phase ≡ failed
      → SameRun old new
      → JobStep lib now old new
  expire :
      old.status.phase ≡ active_job
      → has_passed now old.status.expiry_time ≡ true
      → new.status.phase ≡ expiring
      → SameRun old new
      → JobStep lib now old new
  complete :
      old.status.phase ≡ expiring
      → new.status.phase ≡ completed
      → new.status.completion_time ≡ some now
      → SameRun old new
      → JobStep lib now old new

pub JobStep-status :
    {lib : Library} {now : ℤ} {old new : JitAccessJob}
    → JobStep lib now old new
    → JobStep lib now old (record old { status = new.status })
JobStep-status (stay e) = stay e
JobStep-status (start d w p f s x) = start d w p f s x
JobStep-status (reject w p f s x a) = reject w p f s x a
JobStep-status (grant p f s x) = grant p f s x
JobStep-status (fail p f r) = fail p f r
JobStep-status (expire p g f r) = expire p g f r
JobStep-status (complete p f c r) = complete p f c r

-- What a round makes of the job: one move, with the specification and the metadata unchanged.
pub record JobMoved (api : ApiServer) (lib : Library) (now : ℤ) (key : ObjectReference)
    (old : JitAccessJob) (k : api.State) : Type 0 where
  pub new : JitAccessJob
  pub stored : api.job_at key k ≡ some new
  pub step : JobStep lib now old new
  pub same_spec : new.spec ≡ old.spec
  pub same_meta : new.meta ≡ old.meta
