-- ===== src/Auth.antt =====
-- pkg/auth/rbac.go: roles, the permissions of each role, and the table of users.
-- A lock guards the table; each operation holds it for its whole body, so operations are atomic.
-- `Role` is a Go string: `other` stands for a text that is none of the three declared roles.
pub mod Laws
use jit_bot.Base.{
  ◌≡◌, Bool, true, false, ◌||◌, List, [], ◌∷◌, Option, none, some, Bytes, if◌then◌else◌,
}
use jit_bot.Base.Text.{bytes_eq}
use jit_bot.Base.Map.{lookup, insert}

pub data Role : Type 0 where
  admin approver requester : Role
  other : Bytes → Role

pub data Permission : Type 0 where
  manage_clusters manage_users approve_requests create_requests view_requests : Permission
  revoke_access view_audit_log : Permission

abbrev pub same_permission : Permission → Permission → Bool
same_permission manage_clusters manage_clusters = true
same_permission manage_users manage_users = true
same_permission approve_requests approve_requests = true
same_permission create_requests create_requests = true
same_permission view_requests view_requests = true
same_permission revoke_access revoke_access = true
same_permission view_audit_log view_audit_log = true
same_permission _ _ = false

-- The map `rolePermissions`; `none` is a missing key.
unfoldable pub role_permissions : Role → Option (List Permission)
role_permissions admin = some (
    manage_clusters ∷ manage_users ∷ approve_requests ∷ create_requests ∷ view_requests
    ∷ revoke_access ∷ view_audit_log ∷ [])
role_permissions approver =
    some (approve_requests ∷ create_requests ∷ view_requests ∷ revoke_access ∷ view_audit_log ∷ [])
role_permissions requester = some (create_requests ∷ view_requests ∷ [])
role_permissions (other _) = none

pub record Rbac : Type 0 where
  pub users : List (Bytes × Role)
  pub admins : List Bytes

-- The loop of NewRBAC over `adminUsers`.
unfoldable pub add_admins : List Bytes → List (Bytes × Role) → List (Bytes × Role)
add_admins [] users = users
add_admins (a ∷ rest) users = add_admins rest (insert a admin users)

unfoldable pub new_rbac : List Bytes → Rbac
unfolding add_admins
new_rbac admin_users = record { users = add_admins admin_users []; admins = admin_users }

unfoldable pub set_user_role : Rbac → Bytes → Role → Rbac
set_user_role r user_id role = record r { users = insert user_id role r.users }

abbrev or_requester : Option Role → Role
or_requester (some role) = role
or_requester none = requester

unfoldable pub get_user_role : Rbac → Bytes → Role
get_user_role r user_id = or_requester (lookup user_id r.users)

unfoldable pub has_permission : List Permission → Permission → Bool
has_permission [] permission = false
has_permission (p ∷ ps) permission = same_permission p permission || has_permission ps permission

abbrev allowed_by : Option (List Permission) → Permission → Bool
unfolding has_permission
allowed_by none permission = false
allowed_by (some permissions) permission = has_permission permissions permission

unfoldable pub role_allows : Role → Permission → Bool
unfolding role_permissions has_permission
role_allows role permission = allowed_by (role_permissions role) permission

unfoldable pub user_has_permission : Rbac → Bytes → Permission → Bool
unfolding role_allows
user_has_permission r user_id permission = role_allows (get_user_role r user_id) permission

abbrev is_admin_role : Role → Bool
is_admin_role admin = true
is_admin_role _ = false

unfoldable pub is_admin : Rbac → Bytes → Bool
is_admin r user_id = is_admin_role (get_user_role r user_id)

-- The error that ValidatePermission returns; `none` is nil.
pub record PermissionError : Type 0 where
  pub user_id : Bytes
  pub permission : Permission

unfoldable pub validate_permission : Rbac → Bytes → Permission → Option PermissionError
validate_permission r user permission =
    if user_has_permission r user permission
    then none
    else some (record { user_id = user; permission = permission })

-- The part of NewRouter that fills the table: the admins, then the approvers.
unfoldable pub add_approvers : List Bytes → Rbac → Rbac
unfolding set_user_role
add_approvers [] r = r
add_approvers (a ∷ rest) r = add_approvers rest (set_user_role r a approver)

unfoldable pub router_rbac : List Bytes → List Bytes → Rbac
unfolding new_rbac add_approvers
router_rbac admin_users approvers = add_approvers approvers (new_rbac admin_users)
