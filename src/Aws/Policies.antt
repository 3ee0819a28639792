-- ===== src/Aws/Policies.antt =====
-- Which rights the permissions of a request give on a cluster (CreateJITAccessEntry of
-- pkg/aws/eks.go).
use jit_bot.Base.{
  ◌≡◌, ◌≢◌, refl, ◌⊎◌, inl, inr, Bool, true, false, ◌||◌, List, [], ◌∷◌, arith, Bytes, codes,
  Bool-cases, All, All-append, str_eq,
}
use jit_bot.Aws.{
  viewer_policy, editor_policy, admin_policy, AccessPolicy, policies_for, matched_policies,
  access_policies, is_any, scope_of, scoped, admin_names, debug_names, or_view,
}

-- A permission that the admin policy answers.
abbrev pub IsAdminName : Bytes → Type 0
IsAdminName p = is_any p admin_names ≡ true

-- Whether a permission of a list is one.
abbrev pub asks_admin : List Bytes → Bool
asks_admin [] = false
asks_admin (p ∷ ps) = is_any p admin_names || asks_admin ps

-- Restricted to the namespaces (to the cluster where there are none), and no admin policy.
abbrev pub IsConfined : List Bytes → AccessPolicy → Type 0
IsConfined names p = (p.access_scope ≡ scope_of names) × (p.policy_arn ≢ admin_policy)

viewer-IsConfined : (names : List Bytes) → IsConfined names (scoped viewer_policy names)
viewer-IsConfined names = (refl, λ e. cc)

editor-IsConfined : (names : List Bytes) → IsConfined names (scoped editor_policy names)
editor-IsConfined names = (refl, λ e. cc)

policies_for-IsConfined :
    (names : List Bytes) (p : Bytes)
    → is_any p admin_names ≡ false
    → All (IsConfined names) (policies_for names p)
unfolding policies_for
policies_for-IsConfined names p h = elim (Bool-cases (str_eq p (codes "view"))) [
  | inl e ↦ rw e (viewer-IsConfined names, tt)
  | inr e ↦ rw e (elim (Bool-cases (str_eq p (codes "edit"))) [
    | inl f ↦ rw f (editor-IsConfined names, tt)
    | inr f ↦
        rw (f, h)
          (elim (Bool-cases (is_any p debug_names)) [
            | inl g ↦ rw g (editor-IsConfined names, tt)
            | inr g ↦ rw g tt
          ])
  ])
]

matched-IsConfined :
    (names ps : List Bytes)
    → asks_admin ps ≡ false
    → All (IsConfined names) (matched_policies names ps)
unfolding matched_policies
matched-IsConfined names [] h = tt
matched-IsConfined names (p ∷ ps) h =
    All-append (IsConfined names) (policies_for names p) (matched_policies names ps)
      (policies_for-IsConfined names p (ground arith)) (matched-IsConfined names ps (ground arith))

or_view-IsConfined :
    (names : List Bytes) (l : List AccessPolicy)
    → All (IsConfined names) l
    → All (IsConfined names) (or_view names l)
or_view-IsConfined names [] h = (viewer-IsConfined names, tt)
or_view-IsConfined names (p ∷ l) h = h

-- Without `admin` and `cluster-admin` among the permissions, every policy is restricted to the
-- namespaces of the request (to the cluster where it names none) and none is the admin policy.
pub access_policies-IsConfined :
    (permissions names : List Bytes)
    → asks_admin permissions ≡ false
    → All (IsConfined names) (access_policies permissions names)
unfolding access_policies
access_policies-IsConfined permissions names h =
    or_view-IsConfined names (matched_policies names permissions)
      (matched-IsConfined names permissions h)

-- `a` is a member of a list.
abbrev pub Has : AccessPolicy → List AccessPolicy → Type 0
Has a [] = ⊥
Has a (p ∷ ps) = (p ≡ a) ⊎ Has a ps
