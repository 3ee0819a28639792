-- ===== src/Auth/Laws.antt =====
-- What the table of users answers after each of its operations (pkg/auth/rbac.go).
use jit_bot.Base.{
  ◌≡◌, refl, Bool, true, false, not, ◌&&◌, ◌||◌, List, [], ◌∷◌, some, Bytes, arith, if◌then◌else◌,
  str_eq,
}
use jit_bot.Base.Text.{bytes_eq}
use jit_bot.Base.Map.{lookup, insert, lookup-insert}
use jit_bot.Auth.{
  Role, admin, approver, requester, other, Permission, Rbac, add_admins, new_rbac, set_user_role,
  get_user_role, role_allows, user_has_permission, is_admin, add_approvers, router_rbac,
}

-- Whether a list of texts holds a text.
abbrev pub listed : List Bytes → Bytes → Bool
listed [] u = false
listed (a ∷ rest) u = str_eq a u || listed rest u

-- Setting a role changes that user's role, and no other user's.
pub get_user_role-set_user_role :
    (r : Rbac) (u v : Bytes) (role : Role)
    → get_user_role (set_user_role r u role) v ≡ (if str_eq u v then role else get_user_role r v)
unfolding get_user_role set_user_role
get_user_role-set_user_role r u v role = ground (arith, lookup-insert u v role r.users)

-- After SetUserRole the permissions of that user are those of the new role, and every other user's
-- permissions are as before.
pub user_has_permission-set_user_role :
    (r : Rbac) (u v : Bytes) (role : Role) (p : Permission)
    → user_has_permission (set_user_role r u role) v p
      ≡ (if str_eq u v then role_allows role p else user_has_permission r v p)
unfolding user_has_permission
user_has_permission-set_user_role r u v role p =
    ground (arith, get_user_role-set_user_role r u v role)

lookup-add_admins :
    (admins : List Bytes) (users : List (Bytes × Role)) (u : Bytes)
    → lookup u (add_admins admins users) ≡ (if listed admins u then some admin else lookup u users)
unfolding add_admins
lookup-add_admins [] users u = refl
lookup-add_admins (a ∷ rest) users u =
    ground (arith, lookup-add_admins rest (insert a admin users) u, lookup-insert a u admin users)

get_user_role-new_rbac :
    (admins : List Bytes) (u : Bytes)
    → get_user_role (new_rbac admins) u ≡ (if listed admins u then admin else requester)
unfolding get_user_role new_rbac lookup
get_user_role-new_rbac admins u = ground (arith, lookup-add_admins admins [] u)

get_user_role-add_approvers :
    (approvers : List Bytes) (r : Rbac) (u : Bytes)
    → get_user_role (add_approvers approvers r) u
      ≡ (if listed approvers u then approver else get_user_role r u)
unfolding add_approvers
get_user_role-add_approvers [] r u = refl
get_user_role-add_approvers (a ∷ rest) r u = ground (
  arith,
  get_user_role-add_approvers rest (set_user_role r a approver) u,
  get_user_role-set_user_role r a u approver,
)

-- The router's table gives each user one role: approver if the configuration lists the user among
-- the approvers, else admin if it lists the user among the admins, else requester.
pub get_user_role-router_rbac :
    (admins approvers : List Bytes) (u : Bytes)
    → get_user_role (router_rbac admins approvers) u
      ≡ (if listed approvers u then approver else if listed admins u then admin else requester)
unfolding router_rbac
get_user_role-router_rbac admins approvers u = ground (
  arith,
  get_user_role-add_approvers approvers (new_rbac admins) u,
  get_user_role-new_rbac admins u,
)

-- A user whom the configuration lists both as admin and as approver is no admin of the router.
pub router_demotes_admin :
    (admins approvers : List Bytes) (u : Bytes)
    → is_admin (router_rbac admins approvers) u ≡ listed admins u && not (listed approvers u)
unfolding is_admin
router_demotes_admin admins approvers u =
    ground (arith, get_user_role-router_rbac admins approvers u)

abbrev pub implies : Bool → Bool → Bool
implies a b = not a || b

-- The roles are ordered: what a requester may do an approver may do, and what an approver may do an
-- admin may do; an admin may do everything, and a role that is not declared may do nothing.
pub role_order :
    (p : Permission) (name : Bytes)
    → (implies (role_allows requester p) (role_allows approver p) ≡ true)
      × (implies (role_allows approver p) (role_allows admin p) ≡ true)
      × (role_allows admin p ≡ true)
      × (role_allows (other name) p ≡ false)
unfolding role_allows
role_order p name = ground arith
