-- ===== src/Webhook/Mutation/Policy.antt =====
-- Who has to approve a request that names no approver: the whole of the mutating webhook, from the
-- request as it was sent (pkg/webhook/mutation.go).
use jit_bot.Base.{
  ◌≡◌, refl, sym, ap, ◌∙◌, inl, inr, Bool, true, false, List, [], ◌∷◌, map, arith, Bytes,
  Bool-cases, codes, str_eq, str_eq_iff, to_lower, to_lower_idem, if◌then◌else◌, length, ◌==◌,
}
use jit_bot.Base.Int.{ℤ}
use jit_bot.Controller.Types.{JitAccessRequest}
use jit_bot.Webhook.Validation.{contains}
use jit_bot.Webhook.Mutation.{
  determine_environment, is_elevated, has_elevated_permissions, key_set, policy_approvers,
  set_defaults, normalize_data, inject_metadata, set_approvers, mutate, not_empty,
}

-- What is assumed of an order of iteration: it visits the keys of the set and nothing else.
abbrev pub KeepsKeys : (List Bytes → List Bytes) → Type 0
KeepsKeys order = (xs : List Bytes) (x : Bytes) → contains (order xs) x ≡ contains xs x

contains-key_set : (xs : List Bytes) (x : Bytes) → contains (key_set xs) x ≡ contains xs x
unfolding contains key_set
contains-key_set [] x = refl
contains-key_set (y ∷ xs) x = ground (arith, contains-key_set xs x, str_eq_iff y x)

contains-cons : (p q : Bytes) (ps : List Bytes) → contains ps q ≡ true → contains (p ∷ ps) q ≡ true
unfolding contains
contains-cons p q ps m = ground arith

contains_head : (p : Bytes) (ps : List Bytes) → contains (p ∷ ps) p ≡ true
unfolding contains
contains_head p ps = ground (arith, str_eq_iff p p)

elevated_member :
    (ps : List Bytes)
    → has_elevated_permissions ps ≡ true
    → (p : Bytes) × (contains ps p ≡ true) × (is_elevated (to_lower p) ≡ true)
unfolding has_elevated_permissions
elevated_member [] h = cc
elevated_member (p ∷ ps) h = elim (Bool-cases (is_elevated (to_lower p))) [
  | inl e ↦ (p, contains_head p ps, e)
  | inr e ↦ let (q, m, r) = elevated_member ps (ground arith) in (q, contains-cons p q ps m, r)
]

member_elevated :
    (ps : List Bytes) (p : Bytes)
    → contains ps p ≡ true
    → is_elevated (to_lower p) ≡ true
    → has_elevated_permissions ps ≡ true
unfolding has_elevated_permissions contains
member_elevated [] p m e = cc
member_elevated (q ∷ ps) p m e = ground (arith, str_eq_iff q p, member_elevated ps p)

implied_both : (a b : Bool) → (a ≡ true → b ≡ true) → (b ≡ true → a ≡ true) → a ≡ b
implied_both true b f g = sym (f refl)
implied_both false true f g = g refl
implied_both false false f g = refl

same_members :
    (ps qs : List Bytes)
    → ((x : Bytes) → contains ps x ≡ contains qs x)
    → has_elevated_permissions ps ≡ has_elevated_permissions qs
same_members ps qs same =
    implied_both (has_elevated_permissions ps) (has_elevated_permissions qs)
      (λ h. let (p, m, e) = elevated_member ps h in member_elevated qs p (sym (same p) ∙ m) e)
      (λ h. let (p, m, e) = elevated_member qs h in member_elevated ps p (same p ∙ m) e)

elevated-to_lower :
    (ps : List Bytes) → has_elevated_permissions (map to_lower ps) ≡ has_elevated_permissions ps
unfolding has_elevated_permissions
elevated-to_lower [] = refl
elevated-to_lower (p ∷ ps) = rw (to_lower_idem p, elevated-to_lower ps)

environment-to_lower :
    (name : Bytes) → determine_environment (to_lower name) ≡ determine_environment name
unfolding determine_environment
environment-to_lower name = rw to_lower_idem

-- The permissions that a request has when its approvers are chosen are elevated exactly if those
-- that it was sent with are.
elevated_after_defaults :
    (order : List Bytes → List Bytes) (keeps : KeepsKeys order) (ps : List Bytes)
    → has_elevated_permissions
        (order (key_set (map to_lower (if length ps == 0 then codes "view" ∷ [] else ps))))
      ≡ has_elevated_permissions ps
elevated_after_defaults order keeps ps =
    same_members _ (map to_lower ps')
      (λ x. keeps (key_set (map to_lower ps')) x ∙ contains-key_set _ x)
    ∙ elevated-to_lower ps'
    ∙ default ps
  where
    ps' : List Bytes
    ps' = if length ps == 0 then codes "view" ∷ [] else ps

    default :
        (qs : List Bytes)
        → has_elevated_permissions (if length qs == 0 then codes "view" ∷ [] else qs)
          ≡ has_elevated_permissions qs
    default [] = unfold has_elevated_permissions is_elevated contains str_eq to_lower in refl
    default (q ∷ qs) = ground arith

set_approvers_lem :
    (order : List Bytes → List Bytes) (req : JitAccessRequest)
    → (set_approvers order req).spec.approvers ≡ (
        if not_empty req.spec.approvers
        then req.spec.approvers
        else order (
            key_set (
              policy_approvers
                (determine_environment req.spec.target_cluster.name)
                (has_elevated_permissions req.spec.permissions))))
unfolding set_approvers
set_approvers_lem order req = elim (Bool-cases (not_empty req.spec.approvers)) [
  | inl e ↦ rw e
  | inr e ↦ rw e
]

contains-set_approvers :
    (order : List Bytes → List Bytes) (r : JitAccessRequest) (x : Bytes)
    → KeepsKeys order
    → contains (set_approvers order r).spec.approvers x ≡ (
        if not_empty r.spec.approvers
        then contains r.spec.approvers x
        else contains
            (policy_approvers
              (determine_environment r.spec.target_cluster.name)
              (has_elevated_permissions r.spec.permissions))
            x)
contains-set_approvers order r x keeps =
    ap (λ (l : List Bytes). contains l x) (set_approvers_lem order r)
    ∙ choose r.spec.approvers (
        policy_approvers (determine_environment r.spec.target_cluster.name)
          (has_elevated_permissions r.spec.permissions))
  where
    choose :
        (named policy : List Bytes)
        → contains (if not_empty named then named else order (key_set policy)) x
          ≡ (if not_empty named then contains named x else contains policy x)
    choose [] policy = keeps (key_set policy) x ∙ contains-key_set policy x
    choose (y ∷ named) policy = refl

module _ (order : List Bytes → List Bytes) (table : List (Bytes × Bytes)) (format_time : ℤ → Bytes)
    (now : ℤ) where
  -- The request when its approvers are chosen.
  before_approvers : JitAccessRequest → JitAccessRequest
  before_approvers req =
      inject_metadata format_time (normalize_data order table (set_defaults now req))

  before_approvers_same :
      (req : JitAccessRequest) → (before_approvers req).spec.approvers ≡ req.spec.approvers
  unfolding before_approvers inject_metadata normalize_data set_defaults
  before_approvers_same req = refl

  before_approvers_policy :
      (req : JitAccessRequest)
      → KeepsKeys order
      → policy_approvers
          (determine_environment (before_approvers req).spec.target_cluster.name)
          (has_elevated_permissions (before_approvers req).spec.permissions)
        ≡ policy_approvers
            (determine_environment req.spec.target_cluster.name)
            (has_elevated_permissions req.spec.permissions)
  unfolding before_approvers inject_metadata normalize_data set_defaults
  before_approvers_policy req keeps = rw (
    environment-to_lower req.spec.target_cluster.name,
    elevated_after_defaults order keeps req.spec.permissions,
  )

  -- A request that names no approver gets exactly the approvers of the policy, for the environment
  -- of its cluster name and for whether a permission of the request as it was sent is elevated,
  -- whatever the order in which the maps are visited; a request that names approvers keeps them.
  pub approvers-mutate :
      (req : JitAccessRequest) (x : Bytes)
      → KeepsKeys order
      → contains (mutate order table format_time now req).spec.approvers x ≡ (
          if not_empty req.spec.approvers
          then contains req.spec.approvers x
          else contains
              (policy_approvers
                (determine_environment req.spec.target_cluster.name)
                (has_elevated_permissions req.spec.permissions))
              x)
  unfolding mutate before_approvers inject_metadata
  approvers-mutate req x keeps =
      rw (before_approvers_same req, before_approvers_policy req keeps) at
        (contains-set_approvers order (before_approvers req) x keeps)
