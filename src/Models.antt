-- ===== src/Models.antt =====
-- pkg/models/cluster.go. Times and durations are nanoseconds; the JSON tags are left out.
use jit_bot.Base.{Bool, List, Option, Bytes}
use jit_bot.Base.Int.{ℤ}

pub record Cluster : Type 0 where
  pub id : Bytes
  pub name : Bytes
  pub display_name : Bytes
  pub aws_account : Bytes
  pub region : Bytes
  pub environment : Bytes
  pub tags : List (Bytes × Bytes)
  pub max_duration : ℤ
  pub required_approvers : ℤ
  pub enabled : Bool
  pub created_at : ℤ
  pub updated_at : ℤ
  pub created_by : Bytes

pub data AccessStatus : Type 0 where
  pending approved denied active expired revoked : AccessStatus

pub record ClusterAccess : Type 0 where
  pub id : Bytes
  pub cluster_id : Bytes
  pub user_id : Bytes
  pub user_email : Bytes
  pub reason : Bytes
  pub duration : ℤ
  pub status : AccessStatus
  pub approved_by : List Bytes
  pub requested_at : ℤ
  pub approved_at : Option ℤ
  pub expires_at : Option ℤ
  pub revoked_at : Option ℤ
  pub revoked_by : Bytes
  pub revoke_reason : Bytes
