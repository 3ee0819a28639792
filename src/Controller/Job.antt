-- ===== src/Controller/Job.antt =====
-- JITAccessJobReconciler of pkg/controller/jitjob_controller.go. A handler works on a copy of the
-- job that it fetched; what it writes there reaches the server by Status().Update. The state is that
-- of the API server and of EKS. The log is left out.
pub mod Steps
pub mod Lifecycle
pub mod Timed
pub mod Leftover
pub mod Blocked
pub mod Rounds
pub mod Secrets
pub mod Progress
use jit_bot.Base.{
  ℕ, ◌*◌, Bool, true, false, List, [], ◌∷◌, ◌++◌, Option, none, some, Bytes, codes, if◌then◌else◌,
}
use jit_bot.Base.Int.{ℤ, ◌+ℤ◌, ltb_ℤ}
use jit_bot.Base.Result.{Result, ok, err, state_after}
use jit_bot.Webhook.Duration.{second, minute}
use jit_bot.Aws.{EksServer, AwsAnswers}
use jit_bot.Access.{AccessCredentials, GrantAnswers, GrantError, grant_access, revoke_access}
use jit_bot.Controller.Types.{
  Condition, JitAccessRequest, JitAccessJob, JobPhase, unset_job, pending_job, creating, active_job,
  expiring, completed, failed, unknown_job, JobAccessEntry, ObjectReference,
}
use jit_bot.Controller.Kube.{
  ApiServer, ApiError, aws_error, ignore_not_found, get_request, get_job, update_job_status,
  create_secret, delete_secret, secret_key, Secret,
}
use jit_bot.Controller.Request.{set_condition}
use jit_bot.Controller.Convert.{
  convert_to_cluster_access, convert_to_cluster, grant_request, credentials_secret,
  kube_config_secret,
}

-- Which client calls of a round the server refuses.
pub record JobFaults : Type 0 where
  pub get : Bool
  pub get_request : Bool
  pub create_credentials : Bool
  pub create_kube_config : Bool
  pub delete_credentials : Bool
  pub delete_kube_config : Bool
  pub update : Bool

-- The texts of a round that library calls print: errors, times, the time of a revocation and the
-- seconds since 1970; and time.ParseDuration.
pub record Library : Type 0 where
  pub parse_duration : Bytes → Option ℤ
  pub describe_duration : Bytes → Bytes
  pub describe : ApiError → Bytes
  pub describe_grant : GrantError → Bytes
  pub format_time : ℤ → Bytes
  pub timestamp : Bytes
  pub unix : Bytes

-- setJobCondition is the loop of setCondition for a job.
abbrev pub set_job_condition : List Condition → Condition → List Condition
set_job_condition = set_condition

-- The status with a new phase and condition.
abbrev pub with_job_phase : ℤ → JobPhase → Bytes → Bytes → Bytes → JitAccessJob → JitAccessJob
with_job_phase now p kind reason detail job = record job {
  status = record (job.status) {
    phase = p;
    conditions =
        set_job_condition job.status.conditions
          (record { kind = kind; last_transition_time = now; reason = reason; message = detail });
  };
}

-- The job as handleCreatingJob leaves it where a step fails.
abbrev pub with_failure : ℤ → Bytes → Bytes → JitAccessJob → JitAccessJob
with_failure now reason detail job = with_job_phase now failed (codes "Failed") reason detail job

-- The job that handlePendingJob starts.
abbrev pub with_start : ℤ → ℤ → JitAccessJob → JitAccessJob
with_start now duration job =
    with_job_phase now creating (codes "Started") (codes "JobStarted")
      (codes "JIT access job has started")
      (record job {
        status = record (job.status) {
          start_time = some now;
          expiry_time = some (now +ℤ duration);
        };
      })

-- The job with its access, as handleCreatingJob records it.
abbrev pub with_access :
    ℤ → Bytes → Secret → Secret → JitAccessRequest → JitAccessJob → JitAccessJob
with_access now unix credentials kube_config req job =
    let session =
      codes "jit-" ++ (req.spec.user_id ++ (codes "-" ++ job.spec.target_cluster.name)) in
    with_job_phase now active_job (codes "AccessGranted") (codes "AccessCreated")
      (codes "JIT access has been successfully created")
      (record job {
        status = record (job.status) {
          access_entry = some (record {
            principal_arn =
                codes "arn:aws:sts::"
                ++ (job.spec.target_cluster.aws_account
                    ++ (codes ":assumed-role/JITAccessRole/" ++ (session ++ (codes "-" ++ unix))));
            session_name = session;
            credentials_secret_ref = some (secret_key credentials);
          });
          kube_config_secret_ref = some (secret_key kube_config);
        };
      })

abbrev pub with_completion : ℤ → JitAccessJob → JitAccessJob
with_completion now job =
    with_job_phase now completed (codes "Completed") (codes "AccessRevoked")
      (codes "JIT access has been successfully revoked and cleaned up")
      (record job { status = record (job.status) { completion_time = some now } })

-- Whether a time that is set lies before the clock.
abbrev pub has_passed : ℤ → Option ℤ → Bool
has_passed now none = false
has_passed now (some expiry) = ltb_ℤ expiry now

abbrev pub credentials_ref : Option JobAccessEntry → Option ObjectReference
credentials_ref none = none
credentials_ref (some entry) = entry.credentials_secret_ref

module _ (api : ApiServer) (eks : EksServer) where
  -- What a round returns: the two states, the wait before the next round (0 is none), the error.
  pub record JobReply : Type 0 where
    pub kube : api.State
    pub entries : eks.State
    pub requeue_after : ℕ
    pub error : Option ApiError

  abbrev pub job_updated : api.State → eks.State → ℕ → Result ApiError api.State → JobReply
  job_updated k s wait (ok k') = record {
    kube = k';
    entries = s;
    requeue_after = wait;
    error = none;
  }
  job_updated k s wait (err e) = record { kube = k; entries = s; requeue_after = 0; error = some e }

  -- The reply with an error whose status update may itself fail.
  abbrev pub job_failed : api.State → eks.State → ApiError → Result ApiError api.State → JobReply
  job_failed k s e (ok k') = record { kube = k'; entries = s; requeue_after = 0; error = some e }
  job_failed k s e (err _) = record { kube = k; entries = s; requeue_after = 0; error = some e }

-- The parameters of a round: the servers, the clock, what the servers refuse and answer, the key of
-- the job, and what the libraries print.
module _ (api : ApiServer) (eks : EksServer) (now : ℤ) (faults : JobFaults) (answers : GrantAnswers)
    (key : ObjectReference) (lib : Library) where
  unfoldable pub handle_pending_job : JitAccessJob → api.State → eks.State → JobReply api eks
  handle_pending_job job k s = elim (lib.parse_duration job.spec.duration) [
    | none ↦ job_updated api eks k s 0 (
        update_job_status api faults.update key
          (with_failure now (codes "InvalidDuration")
            (codes "Failed to parse duration: " ++ lib.describe_duration job.spec.duration)
            (record job { status = record (job.status) { start_time = some now } }))
          k)
    | some duration ↦
        job_updated api eks k s second
          (update_job_status api faults.update key (with_start now duration job) k)
  ]

  -- The rest of handleCreatingJob, behind GrantAccess: the two secrets, then the status.
  unfoldable pub store_credentials :
      JitAccessRequest → AccessCredentials → JitAccessJob → api.State → eks.State → JobReply api eks
  store_credentials req creds job k s =
      let credentials = credentials_secret lib.format_time job creds in
      let kube_config = kube_config_secret job creds.kube_config in
      elim (create_secret api faults.create_credentials credentials k) [
        | err e ↦ record { kube = k; entries = s; requeue_after = 0; error = some e }
        | ok k1 ↦ elim (create_secret api faults.create_kube_config kube_config k1) [
          | err e ↦ record { kube = k1; entries = s; requeue_after = 0; error = some e }
          | ok k2 ↦ job_updated api eks k2 s (5 * minute) (
              update_job_status api faults.update key
                (with_access now lib.unix credentials kube_config req job) k2)
        ]
      ]

  unfoldable pub after_grant :
      JitAccessRequest
      → JitAccessJob
      → api.State
      → eks.State × Result GrantError AccessCredentials
      → JobReply api eks
  after_grant req job k (s, err e) = job_failed api eks k s aws_error (
      update_job_status api faults.update key
        (with_failure now (codes "AccessGrantFailed")
          (codes "Failed to grant access: " ++ lib.describe_grant e) job)
        k)
  after_grant req job k (s, ok creds) = store_credentials req creds job k s

  unfoldable pub handle_creating_job : JitAccessJob → api.State → eks.State → JobReply api eks
  handle_creating_job job k s =
      elim (get_request api faults.get_request job.spec.access_request_ref k) [
        | err e ↦ job_failed api eks k s e (
            update_job_status api faults.update key
              (with_failure now (codes "AccessRequestNotFound")
                (codes "Failed to fetch access request: " ++ lib.describe e) job)
              k)
        | ok req ↦
            after_grant req job k
              (grant_access eks answers (grant_request lib.parse_duration job req) s)
      ]

  unfoldable pub handle_active_job : JitAccessJob → api.State → eks.State → JobReply api eks
  handle_active_job job k s =
      if has_passed now job.status.expiry_time
      then job_updated api eks k s second (
          update_job_status api faults.update key
            (with_job_phase now expiring (codes "Expiring") (codes "AccessExpired")
              (codes "JIT access has expired and is being cleaned up") job)
            k)
      else record { kube = k; entries = s; requeue_after = 2 * minute; error = none }

  -- The part of handleExpiringJob that revokes the access; its error is only logged.
  unfoldable pub revoke_job : JitAccessJob → api.State → eks.State → eks.State
  revoke_job job k s = elim (get_request api faults.get_request job.spec.access_request_ref k) [
    | err e ↦ s
    | ok req ↦ state_after s (
        revoke_access eks answers.aws lib.timestamp
          (convert_to_cluster_access lib.parse_duration req)
          (convert_to_cluster lib.parse_duration req.spec.target_cluster) job.spec.jit_role_arn s)
  ]

  -- The part that deletes one secret, if the job refers to it; its error is only logged.
  unfoldable pub delete_secret_of : Bool → Option ObjectReference → api.State → api.State
  delete_secret_of refuses none k = k
  delete_secret_of refuses (some name) k = state_after k (delete_secret api refuses name k)

  unfoldable pub clean_up : JitAccessJob → api.State → api.State
  clean_up job k =
      delete_secret_of faults.delete_kube_config job.status.kube_config_secret_ref
        (delete_secret_of faults.delete_credentials (credentials_ref job.status.access_entry) k)

  unfoldable pub handle_expiring_job : JitAccessJob → api.State → eks.State → JobReply api eks
  handle_expiring_job job k s =
      let k' = clean_up job k in
      job_updated api eks k' (revoke_job job k s) 0
        (update_job_status api faults.update key (with_completion now job) k')

  unfoldable pub handle_completed_job : JitAccessJob → api.State → eks.State → JobReply api eks
  handle_completed_job job k s = record { kube = k; entries = s; requeue_after = 0; error = none }

  -- The `switch` of Reconcile.
  unfoldable pub dispatch : JobPhase → JitAccessJob → api.State → eks.State → JobReply api eks
  dispatch unset_job job k s = handle_pending_job job k s
  dispatch pending_job job k s = handle_pending_job job k s
  dispatch creating job k s = handle_creating_job job k s
  dispatch active_job job k s = handle_active_job job k s
  dispatch expiring job k s = handle_expiring_job job k s
  dispatch completed job k s = handle_completed_job job k s
  dispatch failed job k s = handle_completed_job job k s
  dispatch (unknown_job _) job k s = record {
    kube = k;
    entries = s;
    requeue_after = 0;
    error = none;
  }

  unfoldable pub reconcile : api.State → eks.State → JobReply api eks
  reconcile k s = elim (get_job api faults.get key k) [
    | err e ↦ record { kube = k; entries = s; requeue_after = 0; error = ignore_not_found e }
    | ok job ↦ dispatch job.status.phase job k s
  ]
