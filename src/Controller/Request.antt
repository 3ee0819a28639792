-- ===== src/Controller/Request.antt =====
-- JITAccessRequestReconciler of pkg/controller/jitaccess_controller.go. A handler works on a copy of
-- the request that it fetched; what it writes there reaches the server by Status().Update. `now` is
-- the reading of the clock in a round, and the log is left out.
pub mod Approvals
pub mod Phases
pub mod Stuck
pub mod Progress
pub mod Settled
use jit_bot.Base.{
  ℕ, zero, suc, ◌+◌, ◌*◌, Bool, true, false, ◌&&◌, ◌||◌, List, [], ◌∷◌, ◌++◌, Option, none, some,
  Bytes, codes, length, leb, ◌==◌, if◌then◌else◌, str_eq,
}
use jit_bot.Base.Int.{ℤ, ltb_ℤ}
use jit_bot.Base.Result.{Result, ok, err}
use jit_bot.Auth.{Rbac, create_requests, user_has_permission}
use jit_bot.Webhook.Duration.{second, minute}
use jit_bot.Controller.Types.{
  ObjectMeta, TargetCluster, JitAccessRequest, JitAccessRequestStatus, AccessPhase, unset, pending,
  approved, denied, active, expired, revoked, unknown, Approval, AccessEntryStatus, Condition,
  ObjectReference, JitAccessJob, JitAccessJobStatus, on_expiry, unset_job, JobAccessEntry,
}
use jit_bot.Controller.Kube.{
  ApiServer, Reply, ApiError, owner_error, nil_dereference, ignore_not_found, get_request, get_job,
  update_request_status, create_job, reply_updated, reply_done, reply_error,
}

-- Which client calls of a round the server refuses.
pub record Faults : Type 0 where
  pub get : Bool
  pub get_job : Bool
  pub set_owner : Bool
  pub create : Bool
  pub update : Bool

unfoldable pub set_condition : List Condition → Condition → List Condition
set_condition [] condition = condition ∷ []
set_condition (existing ∷ rest) condition =
    if str_eq existing.kind condition.kind
    then condition ∷ rest
    else existing ∷ set_condition rest condition

-- The status with a new phase, message and condition.
abbrev pub with_phase :
    ℤ → AccessPhase → Bytes → Bytes → Bytes → Bytes → JitAccessRequest → JitAccessRequest
with_phase now p text kind reason detail req = record req {
  status = record (req.status) {
    phase = p;
    message = text;
    conditions =
        set_condition req.status.conditions
          (record { kind = kind; last_transition_time = now; reason = reason; message = detail });
  };
}

abbrev pub with_message : Bytes → JitAccessRequest → JitAccessRequest
with_message text req = record req { status = record (req.status) { message = text } }

abbrev pub is_view_only : List Bytes → Bool
is_view_only (p ∷ []) = str_eq p (codes "view")
is_view_only _ = false

unfoldable pub should_auto_approve : Rbac → JitAccessRequest → Bool
should_auto_approve rbac req =
    is_view_only req.spec.permissions && user_has_permission rbac req.spec.user_id create_requests

-- The inner loop of hasRequiredApprovals, which stops at the first match.
unfoldable pub is_required : Bytes → List Bytes → Bool
is_required approver [] = false
is_required approver (required ∷ rest) = str_eq approver required || is_required approver rest

-- The outer loop.
unfoldable pub count_valid : List Approval → List Bytes → ℕ
count_valid [] approvers = 0
count_valid (approval ∷ rest) approvers =
    let others = count_valid rest approvers in
    if is_required approval.approver approvers then suc others else others

unfoldable pub has_required_approvals : JitAccessRequest → Bool
has_required_approvals req =
    if length req.spec.approvers == 0
    then true
    else leb (length req.spec.approvers) (count_valid req.status.approvals req.spec.approvers)

unfoldable pub is_request_expired : ℤ → JitAccessRequest → Bool
is_request_expired now req = elim req.status.access_entry [
  | none ↦ false
  | some entry ↦ ltb_ℤ entry.expires_at now
]

unfoldable pub get_jit_role_arn : TargetCluster → Bytes
get_jit_role_arn cluster =
    codes "arn:aws:iam::" ++ (cluster.aws_account ++ codes ":role/JITAccessRole")

unfoldable pub job_name : JitAccessRequest → Bytes
job_name req = codes "jit-" ++ (req.spec.user_id ++ (codes "-" ++ req.meta.name))

unfoldable pub create_jit_access_job : JitAccessRequest → JitAccessJob
create_jit_access_job req = record {
  meta = record {
    name = job_name req;
    namespace = req.meta.namespace;
    labels =
        (codes "jit.rebelops.io/request", req.meta.name)
        ∷ (codes "jit.rebelops.io/user", req.spec.user_id)
        ∷ (codes "jit.rebelops.io/cluster", req.spec.target_cluster.name)
        ∷ [];
    annotations = [];
  };
  spec = record {
    access_request_ref = record { name = req.meta.name; namespace = req.meta.namespace };
    target_cluster = req.spec.target_cluster;
    duration = req.spec.duration;
    jit_role_arn = get_jit_role_arn req.spec.target_cluster;
    permissions = req.spec.permissions;
    namespaces = req.spec.namespaces;
    cleanup_policy = on_expiry;
  };
  status = record {
    phase = unset_job;
    start_time = none;
    completion_time = none;
    expiry_time = none;
    access_entry = none;
    kube_config_secret_ref = none;
    conditions = [];
  };
  owner = none;
}

-- SetControllerReference, where it does not fail: the request becomes the owner of the job.
unfoldable pub owned_job : JitAccessRequest → JitAccessJob
unfolding create_jit_access_job
owned_job req = record (create_jit_access_job req) {
  owner = some (record { name = req.meta.name; namespace = req.meta.namespace });
}

-- The parameters of a round: the server, the table of users, the clock, what the server refuses, the key of the
-- request, and the text that `%v` prints for an error.
module _ (api : ApiServer) (rbac : Rbac) (now : ℤ) (faults : Faults) (key : ObjectReference)
    (describe : ApiError → Bytes) where
  open api use {State}

  -- handlePendingRequest where the phase is empty.
  unfoldable pub submit : JitAccessRequest → State → Reply api
  submit req k =
      let req' = record req {
        status = record (req.status) {
          phase = pending;
          message = codes "Request pending approval";
          conditions =
              record {
                kind = codes "Submitted";
                last_transition_time = now;
                reason = codes "RequestSubmitted";
                message = codes "JIT access request has been submitted";
              }
              ∷ [];
        };
      } in
      reply_updated api k (30 * second) (update_request_status api faults.update key req' k)

  -- handlePendingRequest where the phase is Pending.
  unfoldable pub handle_pending : JitAccessRequest → State → Reply api
  handle_pending req k =
      let req' =
        with_phase now approved (codes "Request approved") (codes "Approved")
          (codes "RequiredApprovalsReceived") (codes "JIT access request has been approved") req in
      if should_auto_approve rbac req || has_required_approvals req
      then reply_updated api k second (update_request_status api faults.update key req' k)
      else reply_done api k (5 * minute)

  -- The rest of handleApprovedRequest, after the call of Create.
  unfoldable pub after_create : JitAccessRequest → State → Result ApiError State → Reply api
  after_create req k (err e) =
      let req' = with_message (codes "Failed to create access job: " ++ describe e) req in
      elim (update_request_status api faults.update key req' k) [
        | ok k' ↦ reply_error api k' e
        | err _ ↦ reply_error api k e
      ]
  after_create req k (ok created) =
      let req' =
        with_phase now active (codes "Access provisioning in progress") (codes "Provisioning")
          (codes "JobCreated") (codes "JIT access job has been created") req in
      reply_updated api created (2 * minute)
        (update_request_status api faults.update key req' created)

  unfoldable pub handle_approved : JitAccessRequest → State → Reply api
  handle_approved req k =
      if faults.set_owner
      then reply_error api k owner_error
      else after_create req k (create_job api faults.create (owned_job req) k)

  unfoldable pub handle_denied : JitAccessRequest → State → Reply api
  handle_denied req k = reply_done api k 0

  -- The `if` of syncWithJob that copies the entry of the job, where the request has none. Reading
  -- through a nil time is a panic.
  unfoldable pub copy_entry :
      JitAccessRequest → JitAccessJobStatus → JobAccessEntry → State → Reply api
  copy_entry req status entry k = elim status.start_time [
    | none ↦ reply_error api k nil_dereference
    | some started ↦ elim status.expiry_time [
      | none ↦ reply_error api k nil_dereference
      | some expiry ↦
          let req' = record req {
            status = record (req.status) {
              access_entry = some (record {
                principal_arn = entry.principal_arn;
                session_name = entry.session_name;
                created_at = started;
                expires_at = expiry;
              });
              conditions = set_condition req.status.conditions (record {
                kind = codes "AccessGranted";
                last_transition_time = now;
                reason = codes "AccessProvisioned";
                message = codes "JIT access has been successfully provisioned";
              });
            };
          } in
          reply_updated api k (2 * minute) (update_request_status api faults.update key req' k)
    ]
  ]

  unfoldable pub sync_entry :
      JitAccessRequest
      → JitAccessJobStatus
      → Option JobAccessEntry
      → Option AccessEntryStatus
      → State
      → Reply api
  sync_entry req status (some entry) none k = copy_entry req status entry k
  sync_entry req status _ _ k = reply_done api k (2 * minute)

  unfoldable pub sync_with_job : JitAccessRequest → State → Reply api
  sync_with_job req k =
      let name : ObjectReference = record { name = job_name req; namespace = req.meta.namespace } in
      elim (get_job api faults.get_job name k) [
        | err e ↦ record { kube = k; requeue_after = 0; error = ignore_not_found e }
        | ok job ↦ sync_entry req job.status job.status.access_entry req.status.access_entry k
      ]

  unfoldable pub handle_active : JitAccessRequest → State → Reply api
  handle_active req k =
      let req' =
        with_phase now expired (codes "Access has expired") (codes "Expired")
          (codes "AccessExpired") (codes "JIT access has expired") req in
      if is_request_expired now req
      then reply_updated api k second (update_request_status api faults.update key req' k)
      else sync_with_job req k

  unfoldable pub handle_expired : JitAccessRequest → State → Reply api
  handle_expired req k = reply_done api k 0

  -- The `switch` of Reconcile.
  unfoldable pub dispatch : AccessPhase → JitAccessRequest → State → Reply api
  dispatch unset req k = submit req k
  dispatch pending req k = handle_pending req k
  dispatch approved req k = handle_approved req k
  dispatch denied req k = handle_denied req k
  dispatch active req k = handle_active req k
  dispatch expired req k = handle_expired req k
  dispatch revoked req k = handle_expired req k
  dispatch (unknown _) req k = reply_done api k 0

  unfoldable pub reconcile : State → Reply api
  reconcile k = elim (get_request api faults.get key k) [
    | err e ↦ record { kube = k; requeue_after = 0; error = ignore_not_found e }
    | ok req ↦ dispatch req.status.phase req k
  ]
