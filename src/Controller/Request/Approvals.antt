-- ===== src/Controller/Request/Approvals.antt =====
-- What the count of approvals means (hasRequiredApprovals of pkg/controller/jitaccess_controller.go).
use jit_bot.Base.{
  suc, ◌≤◌, ◌≡◌, refl, ◌∙◌, inl, inr, Bool, true, false, ◌||◌, List, [], ◌∷◌, map, arith, Bytes,
  Bool-cases, str_eq, str_eq_iff, length, All, leb, ◌==◌, if◌then◌else◌,
}
use jit_bot.Controller.Types.{JitAccessRequest, Approval}
use jit_bot.Controller.Request.{is_required, count_valid, has_required_approvals}

-- Membership as a test.
abbrev pub member : Bytes → List Bytes → Bool
member x [] = false
member x (y ∷ ys) = str_eq x y || member x ys

-- No text stands twice.
abbrev pub AllDifferent : List Bytes → Type 0
AllDifferent [] = Unit
AllDifferent (x ∷ xs) = (member x xs ≡ false) × AllDifferent xs

abbrev pub names : List Approval → List Bytes
names = map (λ a. a.approver)

is_required-member :
    (x : Bytes) (approvers : List Bytes) → is_required x approvers ≡ member x approvers
unfolding is_required
is_required-member x [] = refl
is_required-member x (y ∷ ys) = rw (is_required-member x ys)

-- The list without the first occurrence of a text.
remove : Bytes → List Bytes → List Bytes
remove x [] = []
remove x (y ∷ ys) = if str_eq x y then ys else y ∷ remove x ys

length-remove :
    (x : Bytes) (ys : List Bytes) → member x ys ≡ true → length ys ≡ suc (length (remove x ys))
unfolding remove
length-remove x [] h = cc
length-remove x (y ∷ ys) h = ground (arith, length-remove x ys)

member-remove_ne :
    (x z : Bytes) (ys : List Bytes) → str_eq z x ≡ false → member z (remove x ys) ≡ member z ys
unfolding remove
member-remove_ne x z [] h = refl
member-remove_ne x z (y ∷ ys) h =
    ground (arith, member-remove_ne x z ys, str_eq_iff x y, str_eq_iff z x, str_eq_iff z y)

-- The approvals that count, by their approvers.
counted : List Bytes → List Bytes → List Bytes
counted [] approvers = []
counted (x ∷ xs) approvers =
    let rest = counted xs approvers in if member x approvers then x ∷ rest else rest

length-counted :
    (given : List Approval) (approvers : List Bytes)
    → count_valid given approvers ≡ length (counted (names given) approvers)
unfolding count_valid counted
length-counted [] approvers = refl
length-counted (a ∷ given) approvers =
    ground (arith, is_required-member a.approver approvers, length-counted given approvers)

counted-remove :
    (x : Bytes) (xs approvers : List Bytes)
    → member x xs ≡ false
    → counted xs (remove x approvers) ≡ counted xs approvers
unfolding counted
counted-remove x [] approvers h = refl
counted-remove x (z ∷ xs) approvers h = ground (
  arith,
  counted-remove x xs approvers,
  member-remove_ne x z approvers,
  str_eq_iff x z,
  str_eq_iff z x,
)

-- Different approvers whose counted approvals are as many as the required approvers are all of them.
covers :
    (xs approvers : List Bytes) (a : Bytes)
    → AllDifferent xs
    → length approvers ≤ length (counted xs approvers)
    → member a approvers ≡ true
    → member a xs ≡ true
unfolding counted
covers [] [] a d h m = cc
covers [] (y ∷ ys) a d h m = absurd (omega arith)
covers (x ∷ xs) approvers a (dx, d) h m = elim (Bool-cases (member x approvers)) [
  | inl hit ↦
      let fewer : length (remove x approvers) ≤ length (counted xs (remove x approvers)) =
        ground (arith, counted-remove x xs approvers dx, length-remove x approvers hit) in
      elim (Bool-cases (str_eq a x)) [
        | inl same ↦ rw same
        | inr differs ↦
            rw (differs) (
              covers xs (remove x approvers) a d fewer (member-remove_ne x a approvers differs ∙ m))
      ]
  | inr miss ↦
      let rest : member a xs ≡ true = covers xs approvers a d (ground arith) m in ground arith
]

-- If no user approved twice and the approvals suffice, then every required approver has approved.
pub required_approvals_sound :
    (req : JitAccessRequest) (a : Bytes)
    → AllDifferent (names req.status.approvals)
    → has_required_approvals req ≡ true
    → member a req.spec.approvers ≡ true
    → member a (names req.status.approvals) ≡ true
unfolding has_required_approvals
required_approvals_sound req a d h m =
    covers (names req.status.approvals) req.spec.approvers a d enough m
  where
    enough_of :
        (approvers : List Bytes) (given : List Approval)
        → (if length approvers == 0
            then true
            else leb (length approvers) (count_valid given approvers))
          ≡ true
        → length approvers ≤ length (counted (names given) approvers)
    enough_of approvers given e = ground (arith, length-counted given approvers)

    enough :
        length req.spec.approvers ≤ length (counted (names req.status.approvals) req.spec.approvers)
    enough = enough_of req.spec.approvers req.status.approvals h

-- All the approvals are one user's.
abbrev pub AllBy : Bytes → List Approval → Type 0
AllBy a = All (λ g. g.approver ≡ a)

count_valid-AllBy :
    (a : Bytes) (given : List Approval) (approvers : List Bytes)
    → AllBy a given
    → member a approvers ≡ true
    → count_valid given approvers ≡ length given
unfolding count_valid
count_valid-AllBy a [] approvers h m = refl
count_valid-AllBy a (g ∷ given) approvers (e, h) m =
    ground (arith, is_required-member g.approver approvers, count_valid-AllBy a given approvers h m)

-- One required approver alone suffices: as many approvals as there are required approvers, all by
-- that one user, make the request approved, whoever the other required approvers are.
pub repeated_approval_suffices :
    (req : JitAccessRequest) (a : Bytes)
    → member a req.spec.approvers ≡ true
    → AllBy a req.status.approvals
    → length req.spec.approvers ≤ length req.status.approvals
    → has_required_approvals req ≡ true
unfolding has_required_approvals
repeated_approval_suffices req a m by enough =
    enough_of req.spec.approvers req.status.approvals
      (count_valid-AllBy a req.status.approvals req.spec.approvers by m) enough
  where
    enough_of :
        (approvers : List Bytes) (given : List Approval)
        → count_valid given approvers ≡ length given
        → length approvers ≤ length given
        → (if length approvers == 0
            then true
            else leb (length approvers) (count_valid given approvers))
          ≡ true
    enough_of approvers given e l = ground arith
