-- ===== src/Webhook/Mutation.antt =====
-- pkg/webhook/mutation.go: the defaults, the normal forms and the approvers that the mutating
-- webhook writes. Go iterates over a map in any order; `order` rearranges the keys of a set before
-- each loop over it, and `replacements` is the table of normalizeDuration in the order in which its
-- loop meets it. `format_time` stands for time.Format, and `now` is the reading of the clock.
pub mod Policy
pub mod Normal
use jit_bot.Base.{
  ℕ, Bool, true, false, ◌&&◌, ◌||◌, List, [], ◌∷◌, ◌++◌, Option, none, some, Bytes, codes,
  contains_text, to_lower, trim_space, replace_all, join, length, map, ◌==◌, if◌then◌else◌,
}
use jit_bot.Base.Text.{bytes_eq}
use jit_bot.Base.Int.{ℤ, negsuc, ltb_ℤ}
use jit_bot.Base.Map.{lookup, insert}
use jit_bot.Webhook.Duration.{is_nil}
use jit_bot.Webhook.Validation.{contains}
use jit_bot.Controller.Types.{
  ObjectMeta, TargetCluster, JitAccessRequestSpec, JitAccessRequestStatus, JitAccessRequest,
  AccessPhase, unset, pending, approved, denied, active, expired, revoked, unknown, JitAccessJob,
  JitAccessJobSpec, CleanupPolicy, unset_policy, on_expiry,
}

pub data Environment : Type 0 where
  production staging development qa : Environment

abbrev pub environment_name : Environment → Bytes
environment_name production = codes "production"
environment_name staging = codes "staging"
environment_name development = codes "development"
environment_name qa = codes "qa"

unfoldable pub determine_environment : Bytes → Environment
determine_environment cluster_name =
    let lower_name = to_lower cluster_name in
    if contains_text (codes "prod") lower_name || contains_text (codes "production") lower_name
    then production
    else if contains_text (codes "stag") lower_name || contains_text (codes "staging") lower_name
    then staging
    else if contains_text (codes "dev") lower_name || contains_text (codes "development") lower_name
    then development
    else if contains_text (codes "qa") lower_name || contains_text (codes "test") lower_name
    then qa
    else production

-- The keys of the map `elevatedPerms`.
abbrev pub elevated_permissions : List Bytes
elevated_permissions =
    codes "admin"
    ∷ codes "cluster-admin"
    ∷ codes "edit"
    ∷ codes "exec"
    ∷ codes "port-forward"
    ∷ codes "debug"
    ∷ []

unfoldable pub is_elevated : Bytes → Bool
is_elevated perm = contains elevated_permissions perm

unfoldable pub has_elevated_permissions : List Bytes → Bool
has_elevated_permissions [] = false
has_elevated_permissions (perm ∷ rest) =
    is_elevated (to_lower perm) || has_elevated_permissions rest

abbrev pub replacements : List (Bytes × Bytes)
replacements =
    (codes "min", codes "m")
    ∷ (codes "mins", codes "m")
    ∷ (codes "minute", codes "m")
    ∷ (codes "minutes", codes "m")
    ∷ (codes "hour", codes "h")
    ∷ (codes "hours", codes "h")
    ∷ (codes "day", codes "d")
    ∷ (codes "days", codes "d")
    ∷ []

-- The loop over the replacements.
unfoldable pub replace_each : List (Bytes × Bytes) → Bytes → Bytes
replace_each [] normalized = normalized
replace_each ((old, new) ∷ rest) normalized = replace_each rest (replace_all old new normalized)

unfoldable pub normalize_duration : List (Bytes × Bytes) → Bytes → Bytes
normalize_duration table duration =
    replace_all (codes " ") [] (replace_each table (to_lower duration))

-- The keys of a map that a loop sets to true one by one.
unfoldable pub key_set : List Bytes → List Bytes
key_set [] = []
key_set (x ∷ xs) = let rest = key_set xs in if contains xs x then rest else x ∷ rest

abbrev pub is_zero_time : ℤ → Bool
is_zero_time (negsuc n) = n == 62135596799999999999
is_zero_time _ = false

abbrev pub is_unset : AccessPhase → Bool
is_unset unset = true
is_unset _ = false

-- The text of a phase, as the label has it.
abbrev pub phase_text : AccessPhase → Bytes
phase_text unset = []
phase_text pending = codes "Pending"
phase_text approved = codes "Approved"
phase_text denied = codes "Denied"
phase_text active = codes "Active"
phase_text expired = codes "Expired"
phase_text revoked = codes "Revoked"
phase_text (unknown s) = s

unfoldable pub set_defaults : ℤ → JitAccessRequest → JitAccessRequest
set_defaults now req =
    let phase : AccessPhase = if is_unset req.status.phase then pending else req.status.phase in
    let spec : JitAccessRequestSpec = record (req.spec) {
      permissions =
          if length req.spec.permissions == 0 then codes "view" ∷ [] else req.spec.permissions;
      duration = if is_nil req.spec.duration then codes "1h" else req.spec.duration;
      requested_at = if is_zero_time req.spec.requested_at then now else req.spec.requested_at;
    } in
    let status : JitAccessRequestStatus = record (req.status) {
      phase = phase;
      message =
          if is_nil req.status.message
          then codes "Access request created and pending approval"
          else req.status.message;
    } in
    let meta : ObjectMeta = record (req.meta) {
      labels =
          insert (codes "jit.rebelops.io/phase") (phase_text phase)
            (insert (codes "jit.rebelops.io/type") (codes "access-request") req.meta.labels);
    } in
    record { meta = meta; spec = spec; status = status }

module _ (order : List Bytes → List Bytes) (table : List (Bytes × Bytes)) where
  unfoldable pub normalize_data : JitAccessRequest → JitAccessRequest
  normalize_data req =
      let cluster : TargetCluster = record (req.spec.target_cluster) {
        name = to_lower req.spec.target_cluster.name;
        region = to_lower req.spec.target_cluster.region;
      } in
      record req {
        spec = record (req.spec) {
          target_cluster = cluster;
          permissions = order (key_set (map to_lower req.spec.permissions));
          namespaces =
              if length req.spec.namespaces == 0
              then req.spec.namespaces
              else order (key_set (map to_lower req.spec.namespaces));
          reason = trim_space req.spec.reason;
          duration = normalize_duration table req.spec.duration;
        };
      }

module _ (format_time : ℤ → Bytes) where
  unfoldable pub inject_metadata : JitAccessRequest → JitAccessRequest
  inject_metadata req =
      let name : Bytes = req.spec.target_cluster.name in
      let created_by : Bytes = codes "jit.rebelops.io/created-by" in
      let sourced : List (Bytes × Bytes) = elim (lookup created_by req.meta.annotations) [
        | none ↦ insert created_by (codes "webhook") req.meta.annotations
        | some v ↦
            if is_nil v
            then insert created_by (codes "webhook") req.meta.annotations
            else req.meta.annotations
      ] in
      let annotations : List (Bytes × Bytes) = insert (codes "jit.rebelops.io/cluster") name (
        insert (codes "jit.rebelops.io/duration") req.spec.duration (
          insert (codes "jit.rebelops.io/requested-at") (format_time req.spec.requested_at)
            sourced)) in
      let labels : List (Bytes × Bytes) =
        insert (codes "jit.rebelops.io/environment") (environment_name (determine_environment name))
          (insert (codes "jit.rebelops.io/cluster") name
            (insert (codes "jit.rebelops.io/user") req.spec.user_id req.meta.labels)) in
      record req { meta = record (req.meta) { labels = labels; annotations = annotations } }

-- The `switch` of setApprovers.
unfoldable pub policy_approvers : Environment → Bool → List Bytes
policy_approvers production elevated =
    codes "platform-team" ∷ codes "sre-team" ∷ (if elevated then codes "security-team" ∷ [] else [])
policy_approvers staging elevated = if elevated then codes "platform-team" ∷ [] else []
policy_approvers _ elevated = []

abbrev pub not_empty : List Bytes → Bool
not_empty [] = false
not_empty (x ∷ xs) = true

module _ (order : List Bytes → List Bytes) where
  unfoldable pub set_approvers : JitAccessRequest → JitAccessRequest
  set_approvers req =
      let assigned : List Bytes = order (
        key_set (
          policy_approvers (determine_environment req.spec.target_cluster.name)
            (has_elevated_permissions req.spec.permissions))) in
      if not_empty req.spec.approvers then req else record req {
        spec = record (req.spec) { approvers = assigned };
        meta =
            if not_empty assigned
            then record (req.meta) {
              annotations =
                  insert (codes "jit.rebelops.io/auto-approvers") (join assigned (codes ","))
                    req.meta.annotations;
            }
            else req.meta;
      }

-- The four mutations of Handle, on what the decoder gave. The patch of the response, and an error
-- of json.Marshal, are left to the admission library.
module _ (order : List Bytes → List Bytes) (table : List (Bytes × Bytes))
    (format_time : ℤ → Bytes) where
  unfoldable pub mutate : ℤ → JitAccessRequest → JitAccessRequest
  mutate now req =
      set_approvers order
        (inject_metadata format_time (normalize_data order table (set_defaults now req)))

abbrev pub is_unset_policy : CleanupPolicy → Bool
is_unset_policy unset_policy = true
is_unset_policy _ = false

-- Handle of JITAccessJobMutator.
unfoldable pub mutate_job : JitAccessJob → JitAccessJob
mutate_job job = record job {
  spec = record (job.spec) {
    cleanup_policy =
        if is_unset_policy job.spec.cleanup_policy then on_expiry else job.spec.cleanup_policy;
  };
  meta = record (job.meta) {
    labels = insert (codes "jit.rebelops.io/cluster") job.spec.target_cluster.name (
        insert (codes "jit.rebelops.io/request") job.spec.access_request_ref.name
          (insert (codes "jit.rebelops.io/type") (codes "access-job") job.meta.labels));
  };
}
