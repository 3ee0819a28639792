-- ===== src/Webhook/Validation/Parts.antt =====
-- What each check of the validating webhook (pkg/webhook/validation.go) lets through, in terms of Rules.
use jit_bot.Base.{
  ◌≡◌, ◌≤◌, refl, inl, inr, ◌↔◌, true, false, ◌&&◌, List, [], ◌∷◌, none, arith, Bytes, All, All-imp,
  Bool-cases, has_prefix, length, ◌==◌, codes, to_lower, trim_space,
}
use jit_bot.Webhook.Regex.{
  match_string, account_regex, region_regex, namespace_regex, team_regex, user_id_regex,
  email_regex,
}
use jit_bot.Webhook.Regex.Language.{match_string_iff}
use jit_bot.Webhook.Duration.{is_nil_no, is_nil}
use jit_bot.Controller.Types.{TargetCluster}
use jit_bot.Webhook.Validation.{
  contains, cluster_admin, valid_permissions, generic_reasons, generic_phrases,
  validate_permissions, validate_cluster, validate_reason, is_valid_approver, validate_approvers,
  validate_namespaces, validate_user_id, validate_email, validate_reason_for_permissions,
  find_duplicate, first_invalid,
}
use jit_bot.Webhook.Validation.Members.{
  Distinct, IsKnown, check_each_permission_sound, check_each_permission_complete,
  first_invalid_sound, first_invalid_complete, find_duplicate_sound, find_duplicate_complete, Fresh,
}
use jit_bot.Webhook.Validation.Words.{
  contains_iff, contains_not, holds_phrase-none, none-holds_phrase,
}
use jit_bot.Webhook.Validation.Shapes
use jit_bot.Webhook.Validation.Rules.{
  OneOf, AllDiffer, IsPermission, PermissionsFit, ClusterFits, ReasonFits, IsApprover, IsNamespace,
  IsUserId, IsEmail, NamespacesFit,
}

Distinct-AllDiffer : (xs : List Bytes) → Distinct xs → AllDiffer xs
Distinct-AllDiffer [] d = tt
Distinct-AllDiffer (x ∷ xs) (n, d) = ((contains_not xs x).0 n, Distinct-AllDiffer xs d)

AllDiffer-Distinct : (xs : List Bytes) → AllDiffer xs → Distinct xs
AllDiffer-Distinct [] d = tt
AllDiffer-Distinct (x ∷ xs) (n, d) = ((contains_not xs x).1 n, AllDiffer-Distinct xs d)

admin_OneOf :
    (ps : List Bytes) → (contains ps cluster_admin ≡ true) ↔ OneOf ps (codes "cluster-admin")
admin_OneOf ps = contains_iff ps cluster_admin

pub permissions_sound : (ps : List Bytes) → validate_permissions ps ≡ none → PermissionsFit ps
unfolding validate_permissions
permissions_sound ps h = record {
  some_permission = ground arith;
  all_known =
      All-imp IsKnown IsPermission ps (λ p k. (contains_iff valid_permissions p).0 k)
        (check_each_permission_sound ps (ground arith));
  no_escalation = λ o. let e = (admin_OneOf ps).1 o in ground arith;
}

pub permissions_complete : (ps : List Bytes) → PermissionsFit ps → validate_permissions ps ≡ none
unfolding validate_permissions
permissions_complete ps f =
    let known =
      All-imp IsPermission IsKnown ps (λ p k. (contains_iff valid_permissions p).1 k) f.all_known in
    let alone : contains ps cluster_admin ≡ true → length ps ≤ 1 =
      λ e. f.no_escalation ((admin_OneOf ps).0 e) in
    rw (check_each_permission_complete ps known) (ground (arith, f.some_permission, alone))

pub cluster_sound : (c : TargetCluster) → validate_cluster c ≡ none → ClusterFits c
unfolding validate_cluster
cluster_sound c h = record {
  named = (is_nil_no c.name).0 (ground arith);
  account =
      (Shapes.account_regex-IsAccount c.aws_account).0
        ((match_string_iff account_regex c.aws_account).0 (ground arith));
  region =
      (Shapes.region_regex-IsRegion c.region).0
        ((match_string_iff region_regex c.region).0 (ground arith));
}

account_not_nil : (s : Bytes) → match_string account_regex s ≡ true → is_nil s ≡ false
unfolding match_string
account_not_nil [] h = cc
account_not_nil (c ∷ s) h = refl

region_not_nil : (s : Bytes) → match_string region_regex s ≡ true → is_nil s ≡ false
unfolding match_string
region_not_nil [] h = cc
region_not_nil (c ∷ s) h = refl

user_not_nil : (s : Bytes) → match_string user_id_regex s ≡ true → is_nil s ≡ false
unfolding match_string
user_not_nil [] h = cc
user_not_nil (c ∷ s) h = refl

email_not_nil : (s : Bytes) → match_string email_regex s ≡ true → is_nil s ≡ false
unfolding match_string
email_not_nil [] h = cc
email_not_nil (c ∷ s) h = refl

pub cluster_complete : (c : TargetCluster) → ClusterFits c → validate_cluster c ≡ none
unfolding validate_cluster
cluster_complete c f =
    let a =
      (match_string_iff account_regex c.aws_account).1
        ((Shapes.account_regex-IsAccount c.aws_account).1 f.account) in
    let r =
      (match_string_iff region_regex c.region).1
        ((Shapes.region_regex-IsRegion c.region).1 f.region) in
    rw ((is_nil_no c.name).1 f.named, account_not_nil c.aws_account a, a)
      (rw (region_not_nil c.region r, r))

pub validate_user_id-IsUserId : (u : Bytes) → (validate_user_id u ≡ none) ↔ IsUserId u
unfolding validate_user_id
validate_user_id-IsUserId u = (
  λ h. (Shapes.user_id_regex-IsUserId u).0 ((match_string_iff user_id_regex u).0 (ground arith)),
  λ l.
      let m = (match_string_iff user_id_regex u).1 ((Shapes.user_id_regex-IsUserId u).1 l) in
      rw (user_not_nil u m, m),
)

pub validate_email-IsEmail : (e : Bytes) → (validate_email e ≡ none) ↔ IsEmail e
unfolding validate_email
validate_email-IsEmail e = (
  λ h. (Shapes.email_regex-IsEmail e).0 ((match_string_iff email_regex e).0 (ground arith)),
  λ l.
      let m = (match_string_iff email_regex e).1 ((Shapes.email_regex-IsEmail e).1 l) in
      rw (email_not_nil e m, m),
)

pub reason_sound :
    (r : Bytes) (ps : List Bytes)
    → validate_reason r ≡ none
    → validate_reason_for_permissions r ps ≡ none
    → ReasonFits r ps
unfolding validate_reason validate_reason_for_permissions
reason_sound r ps h k = record {
  not_blank = (is_nil_no (trim_space r)).0 (ground arith);
  long_enough = ground arith;
  short_enough = ground arith;
  not_generic = (contains_not generic_reasons (to_lower r)).0 (ground arith);
  no_phrase = holds_phrase-none generic_phrases (to_lower r) (ground arith);
  justified = λ o. let e = (admin_OneOf ps).1 o in ground arith;
}

pub reason_complete : (r : Bytes) (ps : List Bytes) → ReasonFits r ps → validate_reason r ≡ none
unfolding validate_reason
reason_complete r ps f = ground (
  arith,
  (is_nil_no (trim_space r)).1 f.not_blank,
  f.long_enough,
  f.short_enough,
  (contains_not generic_reasons (to_lower r)).1 f.not_generic,
)

pub justification_complete :
    (r : Bytes) (ps : List Bytes) → ReasonFits r ps → validate_reason_for_permissions r ps ≡ none
unfolding validate_reason_for_permissions
justification_complete r ps f =
    let justified : contains ps cluster_admin ≡ true → 50 ≤ length r =
      λ e. f.justified ((admin_OneOf ps).0 e) in
    ground (arith, none-holds_phrase generic_phrases (to_lower r) f.no_phrase, justified)

prefix_U :
    (a : Bytes)
    → (has_prefix (codes "U") a && length a == 11 ≡ true)
      ↔ ((rest : Bytes) × ((a ≡ b'U' ∷ rest) × (length rest ≡ 10)))
unfolding has_prefix
prefix_U [] = (λ h. cc, λ (rest, (e, l)). cc)
prefix_U (c ∷ a) = (
  λ h. let same : c ≡ b'U' = ground arith in (a, (cc same, ground arith)),
  λ (rest, (e, l)). ground (arith, e, l),
)

is_valid_approver-IsApprover : (a : Bytes) → (is_valid_approver a ≡ true) ↔ IsApprover a
unfolding is_valid_approver
is_valid_approver-IsApprover a = elim (Bool-cases (has_prefix (codes "U") a && length a == 11)) [
  | inl e ↦ (λ h. inl ((prefix_U a).0 e), λ h. rw (e, is_valid_approver) refl)
  | inr e ↦ (
    λ h. inr (
        (Shapes.team_regex-IsTeam a).0
          ((match_string_iff team_regex a).0 (rw (e, is_valid_approver) at h))),
    λ p. elim p [
      | inl u ↦ absurd (cc ((prefix_U a).1 u, e))
      | inr t ↦
          rw (e, is_valid_approver)
            ((match_string_iff team_regex a).1 ((Shapes.team_regex-IsTeam a).1 t))
    ],
  )
]

Fresh-nil : (xs : List Bytes) → All (Fresh []) xs
unfolding contains
Fresh-nil [] = tt
Fresh-nil (x ∷ xs) = (refl, Fresh-nil xs)

pub approvers_sound :
    (xs : List Bytes) → validate_approvers xs ≡ none → All IsApprover xs × AllDiffer xs
unfolding validate_approvers
approvers_sound [] h = (tt, tt)
approvers_sound (x ∷ xs) h = (
  All-imp (λ a. is_valid_approver a ≡ true) IsApprover (x ∷ xs)
      (λ a v. (is_valid_approver-IsApprover a).0 v)
      (first_invalid_sound is_valid_approver (x ∷ xs) (ground arith)),
  Distinct-AllDiffer (x ∷ xs) ((find_duplicate_sound [] (x ∷ xs) (ground arith)).1),
)

pub approvers_complete :
    (xs : List Bytes) → All IsApprover xs × AllDiffer xs → validate_approvers xs ≡ none
unfolding validate_approvers
approvers_complete [] h = refl
approvers_complete (x ∷ xs) (a, d) =
    let unique : find_duplicate [] (x ∷ xs) ≡ none =
      find_duplicate_complete [] (x ∷ xs) (Fresh-nil (x ∷ xs)) (AllDiffer-Distinct (x ∷ xs) d) in
    let formed : first_invalid is_valid_approver (x ∷ xs) ≡ none =
      first_invalid_complete is_valid_approver (x ∷ xs) (
        All-imp IsApprover (λ a. is_valid_approver a ≡ true) (x ∷ xs)
          (λ a v. (is_valid_approver-IsApprover a).1 v) a) in
    ground arith

match_string-IsNamespace : (n : Bytes) → (match_string namespace_regex n ≡ true) ↔ IsNamespace n
match_string-IsNamespace n = (
  λ m. (Shapes.namespace_regex-IsNamespace n).0 ((match_string_iff namespace_regex n).0 m),
  λ l. (match_string_iff namespace_regex n).1 ((Shapes.namespace_regex-IsNamespace n).1 l),
)

pub namespaces_sound : (ns ps : List Bytes) → validate_namespaces ns ps ≡ none → NamespacesFit ns ps
unfolding validate_namespaces
namespaces_sound ns ps h = record {
  names =
      All-imp (λ n. match_string namespace_regex n ≡ true) IsNamespace ns
        (λ n m. (match_string-IsNamespace n).0 m)
        (first_invalid_sound (match_string namespace_regex) ns (ground arith));
  no_twice = Distinct-AllDiffer ns ((find_duplicate_sound [] ns (ground arith)).1);
  not_cluster_wide = λ o. let e = (admin_OneOf ps).1 o in ground arith;
}

pub namespaces_complete :
    (ns ps : List Bytes) → NamespacesFit ns ps → validate_namespaces ns ps ≡ none
unfolding validate_namespaces
namespaces_complete ns ps f =
    let unique : find_duplicate [] ns ≡ none =
      find_duplicate_complete [] ns (Fresh-nil ns) (AllDiffer-Distinct ns f.no_twice) in
    let formed : first_invalid (match_string namespace_regex) ns ≡ none =
      first_invalid_complete (match_string namespace_regex) ns (
        All-imp IsNamespace (λ n. match_string namespace_regex n ≡ true) ns
          (λ n l. (match_string-IsNamespace n).1 l) f.names) in
    let cluster_wide : contains ps cluster_admin ≡ true → length ns ≡ 0 =
      λ e. f.not_cluster_wide ((admin_OneOf ps).0 e) in
    ground (arith, cluster_wide)
