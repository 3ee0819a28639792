-- ===== src/Controller/Types.antt =====
-- pkg/controller/types.go: the custom resources, with the fields of the Kubernetes metadata that the
-- program reads or writes. Times are nanoseconds; a nil map is the empty list of bindings, and a
-- nil pointer is `none`. `unset` is the empty phase, `unknown` a phase that is not declared.
use jit_bot.Base.{List, Option, Bytes}
use jit_bot.Base.Int.{ℤ}

pub record ObjectMeta : Type 0 where
  pub name : Bytes
  pub namespace : Bytes
  pub labels : List (Bytes × Bytes)
  pub annotations : List (Bytes × Bytes)

pub record TargetCluster : Type 0 where
  pub name : Bytes
  pub aws_account : Bytes
  pub region : Bytes
  pub endpoint : Bytes

pub record JitAccessRequestSpec : Type 0 where
  pub user_id : Bytes
  pub user_email : Bytes
  pub target_cluster : TargetCluster
  pub reason : Bytes
  pub duration : Bytes
  pub permissions : List Bytes
  pub namespaces : List Bytes
  pub approvers : List Bytes
  pub slack_channel : Bytes
  pub requested_at : ℤ

pub data AccessPhase : Type 0 where
  unset pending approved denied active expired revoked : AccessPhase
  unknown : Bytes → AccessPhase

pub record Approval : Type 0 where
  pub approver : Bytes
  pub approved_at : ℤ
  pub comment : Bytes

pub record AccessEntryStatus : Type 0 where
  pub principal_arn : Bytes
  pub session_name : Bytes
  pub created_at : ℤ
  pub expires_at : ℤ

-- metav1.Condition; every condition of the program has the status True.
pub record Condition : Type 0 where
  pub kind : Bytes
  pub last_transition_time : ℤ
  pub reason : Bytes
  pub message : Bytes

pub record JitAccessRequestStatus : Type 0 where
  pub phase : AccessPhase
  pub approvals : List Approval
  pub access_entry : Option AccessEntryStatus
  pub conditions : List Condition
  pub message : Bytes

pub record JitAccessRequest : Type 0 where
  pub meta : ObjectMeta
  pub spec : JitAccessRequestSpec
  pub status : JitAccessRequestStatus

pub record ObjectReference : Type 0 where
  pub name : Bytes
  pub namespace : Bytes

pub data CleanupPolicy : Type 0 where
  unset_policy on_expiry on_delete manual : CleanupPolicy
  unknown_policy : Bytes → CleanupPolicy

pub record JitAccessJobSpec : Type 0 where
  pub access_request_ref : ObjectReference
  pub target_cluster : TargetCluster
  pub duration : Bytes
  pub jit_role_arn : Bytes
  pub permissions : List Bytes
  pub namespaces : List Bytes
  pub cleanup_policy : CleanupPolicy

pub data JobPhase : Type 0 where
  unset_job pending_job creating active_job expiring completed failed : JobPhase
  unknown_job : Bytes → JobPhase

pub record JobAccessEntry : Type 0 where
  pub principal_arn : Bytes
  pub session_name : Bytes
  pub credentials_secret_ref : Option ObjectReference

pub record JitAccessJobStatus : Type 0 where
  pub phase : JobPhase
  pub start_time : Option ℤ
  pub completion_time : Option ℤ
  pub expiry_time : Option ℤ
  pub access_entry : Option JobAccessEntry
  pub kube_config_secret_ref : Option ObjectReference
  pub conditions : List Condition

pub record JitAccessJob : Type 0 where
  pub meta : ObjectMeta
  pub spec : JitAccessJobSpec
  pub status : JitAccessJobStatus
  -- The request that the controller reference names.
  pub owner : Option ObjectReference
