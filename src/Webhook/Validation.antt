-- ===== src/Webhook/Validation.antt =====
-- pkg/webhook/validation.go: the checks of the validating webhook and its handler. A check returns
-- an error or nil (`none`); an error is named for its message. The decoder is controller-runtime's:
-- the handler takes what it decoded, `none` where it failed.
pub mod Members
pub mod Words
pub mod Shapes
pub mod Lasting
pub mod Parts
pub mod Rules
pub mod Admissible
use jit_bot.Base.{
  ℕ, ◌+◌, Bool, true, false, not, ◌&&◌, ◌||◌, List, [], ◌∷◌, Option, none, some, Bytes, codes,
  str_eq, has_prefix, contains_text, to_lower, trim_space, length, ltb, ◌==◌, if◌then◌else◌,
}
use jit_bot.Base.Result.{◌then_check◌}
use jit_bot.Webhook.Regex.{
  match_string, account_regex, region_regex, namespace_regex, team_regex, user_id_regex,
  email_regex,
}
use jit_bot.Webhook.Duration.{DurationError, validate_duration, is_nil}
use jit_bot.Controller.Types.{
  TargetCluster, JitAccessRequest, AccessPhase, unset, pending, approved, denied, active, expired,
  revoked, unknown,
}

pub data ValidationError : Type 0 where
  user_id_required user_id_format email_required email_format : ValidationError
  bad_duration : DurationError → ValidationError
  no_permission cluster_admin_combined : ValidationError
  invalid_permission duplicate_approver invalid_approver : Bytes → ValidationError
  cluster_name_required account_required account_format region_required : ValidationError
  region_format reason_empty reason_too_short reason_too_long reason_generic : ValidationError
  needs_justification needs_long_justification reason_unspecific : ValidationError
  namespaces_with_cluster_admin : ValidationError
  invalid_namespace duplicate_namespace : Bytes → ValidationError
  delete_active wrong_type : ValidationError

unfoldable pub contains : List Bytes → Bytes → Bool
contains [] item = false
contains (s ∷ rest) item = str_eq s item || contains rest item

abbrev pub cluster_admin : Bytes
cluster_admin = codes "cluster-admin"

-- The keys of the map `validPermissions`.
abbrev pub valid_permissions : List Bytes
valid_permissions =
    codes "view"
    ∷ codes "edit"
    ∷ codes "admin"
    ∷ codes "cluster-admin"
    ∷ codes "debug"
    ∷ codes "logs"
    ∷ codes "exec"
    ∷ codes "port-forward"
    ∷ []

-- The loop over the permissions.
unfoldable pub check_each_permission : List Bytes → Option ValidationError
check_each_permission [] = none
check_each_permission (perm ∷ rest) =
    if contains valid_permissions perm
    then check_each_permission rest
    else some (invalid_permission perm)

unfoldable pub validate_permissions : List Bytes → Option ValidationError
validate_permissions permissions =
    if length permissions == 0
    then some no_permission
    else (check_each_permission permissions
        then_check (if contains permissions cluster_admin && ltb 1 (length permissions)
            then some cluster_admin_combined
            else none))

unfoldable pub validate_cluster : TargetCluster → Option ValidationError
validate_cluster cluster =
    if is_nil cluster.name
    then some cluster_name_required
    else if is_nil cluster.aws_account
    then some account_required
    else if not (match_string account_regex cluster.aws_account)
    then some account_format
    else if is_nil cluster.region
    then some region_required
    else if not (match_string region_regex cluster.region)
    then some region_format
    else none

abbrev pub generic_reasons : List Bytes
generic_reasons =
    codes "test"
    ∷ codes "testing"
    ∷ codes "debug"
    ∷ codes "debugging"
    ∷ codes "temp"
    ∷ codes "temporary"
    ∷ codes "asdf"
    ∷ codes "xxx"
    ∷ codes "..."
    ∷ codes "n/a"
    ∷ []

unfoldable pub validate_reason : Bytes → Option ValidationError
validate_reason reason =
    if is_nil (trim_space reason)
    then some reason_empty
    else if ltb (length reason) 10
    then some reason_too_short
    else if ltb 500 (length reason)
    then some reason_too_long
    else if contains generic_reasons (to_lower reason)
    then some reason_generic
    else none

unfoldable pub is_valid_approver : Bytes → Bool
is_valid_approver approver =
    if has_prefix (codes "U") approver && length approver == 11
    then true
    else match_string team_regex approver

-- The loop that fills the map `seen`; the first argument holds its keys.
unfoldable pub find_duplicate : List Bytes → List Bytes → Option Bytes
find_duplicate seen [] = none
find_duplicate seen (x ∷ rest) =
    let next = find_duplicate (x ∷ seen) rest in if contains seen x then some x else next

-- The loop that returns at the first item that fails a test.
unfoldable pub first_invalid : (Bytes → Bool) → List Bytes → Option Bytes
first_invalid p [] = none
first_invalid p (x ∷ rest) = if p x then first_invalid p rest else some x

abbrev pub as_error {ℓ} : {E : Type ℓ} → (Bytes → E) → Option Bytes → Option E
as_error f none = none
as_error f (some x) = some (f x)

unfoldable pub validate_approvers : List Bytes → Option ValidationError
validate_approvers approvers =
    if length approvers == 0
    then none
    else (as_error duplicate_approver (find_duplicate [] approvers)
        then_check as_error invalid_approver (first_invalid is_valid_approver approvers))

unfoldable pub validate_namespaces : List Bytes → List Bytes → Option ValidationError
validate_namespaces namespaces permissions =
    if contains permissions cluster_admin && ltb 0 (length namespaces)
    then some namespaces_with_cluster_admin
    else (as_error invalid_namespace (first_invalid (match_string namespace_regex) namespaces)
        then_check as_error duplicate_namespace (find_duplicate [] namespaces))

unfoldable pub validate_user_id : Bytes → Option ValidationError
validate_user_id user_id =
    if is_nil user_id
    then some user_id_required
    else if not (match_string user_id_regex user_id)
    then some user_id_format
    else none

unfoldable pub validate_email : Bytes → Option ValidationError
validate_email email =
    if is_nil email
    then some email_required
    else if not (match_string email_regex email)
    then some email_format
    else none

abbrev pub generic_phrases : List Bytes
generic_phrases =
    codes "need access"
    ∷ codes "want access"
    ∷ codes "need to debug"
    ∷ codes "want to debug"
    ∷ codes "need to check"
    ∷ codes "want to check"
    ∷ codes "testing something"
    ∷ codes "trying to"
    ∷ []

-- The loop over the generic phrases.
unfoldable pub holds_phrase : List Bytes → Bytes → Bool
holds_phrase [] text = false
holds_phrase (p ∷ ps) text = contains_text p text || holds_phrase ps text

unfoldable pub validate_reason_for_permissions : Bytes → List Bytes → Option ValidationError
validate_reason_for_permissions reason permissions =
    let generic = holds_phrase generic_phrases (to_lower reason) in
    if contains permissions cluster_admin
    then (if generic
        then some needs_justification
        else if ltb (length reason) 50
        then some needs_long_justification
        else none)
    else if generic
    then some reason_unspecific
    else none

pub data Response : Type 0 where
  errored : Response
  denied_with : ValidationError → Response
  allowed : Response

abbrev pub response_of : Option ValidationError → Response
response_of none = allowed
response_of (some e) = denied_with e

abbrev pub as_duration : Option DurationError → Option ValidationError
as_duration none = none
as_duration (some e) = some (bad_duration e)

-- The nine checks of Handle, in its order; each later check runs only where the earlier ones pass.
unfoldable pub validate_request : JitAccessRequest → Option ValidationError
validate_request req =
    validate_user_id req.spec.user_id
    then_check (validate_email req.spec.user_email
        then_check (as_duration (validate_duration req.spec.duration)
            then_check (validate_permissions req.spec.permissions
                then_check (validate_cluster req.spec.target_cluster
                    then_check (validate_reason req.spec.reason
                        then_check (validate_reason_for_permissions req.spec.reason
                              req.spec.permissions
                            then_check (validate_approvers req.spec.approvers
                                then_check validate_namespaces req.spec.namespaces
                                    req.spec.permissions)))))))

unfoldable pub handle : Option JitAccessRequest → Response
handle none = errored
handle (some req) = response_of (validate_request req)

abbrev pub is_active : AccessPhase → Bool
is_active active = true
is_active _ = false

-- ValidateDelete; `none` is an object of another type.
unfoldable pub validate_delete : Option JitAccessRequest → Option ValidationError
validate_delete none = some wrong_type
validate_delete (some req) = if is_active req.status.phase then some delete_active else none
