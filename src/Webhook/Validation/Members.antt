-- ===== src/Webhook/Validation/Members.antt =====
-- The loops of the checks in pkg/webhook/validation.go, as statements about every item.
use jit_bot.Base.{
  ◌≡◌, refl, inl, inr, Bool, true, false, List, [], ◌∷◌, none, arith, Bytes, All, Bool-cases,
  str_eq, str_eq_iff,
}
use jit_bot.Webhook.Validation.{
  contains, valid_permissions, check_each_permission, find_duplicate, first_invalid,
}

-- No item occurs twice.
abbrev pub Distinct : List Bytes → Type 0
Distinct [] = Unit
Distinct (x ∷ xs) = (contains xs x ≡ false) × Distinct xs

abbrev pub IsKnown : Bytes → Type 0
IsKnown p = contains valid_permissions p ≡ true

pub check_each_permission_sound :
    (ps : List Bytes) → check_each_permission ps ≡ none → All IsKnown ps
unfolding check_each_permission
check_each_permission_sound [] h = tt
check_each_permission_sound (p ∷ ps) h = elim (Bool-cases (contains valid_permissions p)) [
  | inl e ↦ (e, check_each_permission_sound ps (ground arith))
  | inr e ↦ absurd (ground arith)
]

pub check_each_permission_complete :
    (ps : List Bytes) → All IsKnown ps → check_each_permission ps ≡ none
unfolding check_each_permission
check_each_permission_complete [] h = refl
check_each_permission_complete (p ∷ ps) (hp, h) =
    rw (hp, check_each_permission) (check_each_permission_complete ps h)

pub first_invalid_sound :
    (p : Bytes → Bool) (xs : List Bytes) → first_invalid p xs ≡ none → All (λ x. p x ≡ true) xs
unfolding first_invalid
first_invalid_sound p [] h = tt
first_invalid_sound p (x ∷ xs) h = elim (Bool-cases (p x)) [
  | inl e ↦ (e, first_invalid_sound p xs (rw e at h))
  | inr e ↦ cc (rw e at h)
]

pub first_invalid_complete :
    (p : Bytes → Bool) (xs : List Bytes) → All (λ x. p x ≡ true) xs → first_invalid p xs ≡ none
unfolding first_invalid
first_invalid_complete p [] h = refl
first_invalid_complete p (x ∷ xs) (hx, h) = rw hx (first_invalid_complete p xs h)

abbrev pub Fresh : List Bytes → Bytes → Type 0
Fresh seen x = contains seen x ≡ false

str_eq_sym : (s t : Bytes) → str_eq s t ≡ str_eq t s
str_eq_sym s t = ground (arith, str_eq_iff s t, str_eq_iff t s)

Fresh-uncons :
    (x : Bytes) (seen xs : List Bytes)
    → All (Fresh (x ∷ seen)) xs
    → (contains xs x ≡ false) × All (Fresh seen) xs
unfolding contains
Fresh-uncons x seen [] h = (refl, tt)
Fresh-uncons x seen (y ∷ xs) (hy, h) =
    let (a, b) = Fresh-uncons x seen xs h in (ground (arith, str_eq_sym x y), (ground arith, b))

Fresh-cons :
    (x : Bytes) (seen xs : List Bytes)
    → contains xs x ≡ false
    → All (Fresh seen) xs
    → All (Fresh (x ∷ seen)) xs
unfolding contains
Fresh-cons x seen [] h f = tt
Fresh-cons x seen (y ∷ xs) h (fy, f) =
    (ground (arith, str_eq_sym x y), Fresh-cons x seen xs (ground arith) f)

pub find_duplicate_sound :
    (seen xs : List Bytes) → find_duplicate seen xs ≡ none → All (Fresh seen) xs × Distinct xs
unfolding find_duplicate
find_duplicate_sound seen [] h = (tt, tt)
find_duplicate_sound seen (x ∷ xs) h = elim (Bool-cases (contains seen x)) [
  | inl e ↦ absurd (ground arith)
  | inr e ↦
      let (f, d) = find_duplicate_sound (x ∷ seen) xs (ground arith) in
      let (dx, fs) = Fresh-uncons x seen xs f in ((e, fs), (dx, d))
]

pub find_duplicate_complete :
    (seen xs : List Bytes) → All (Fresh seen) xs → Distinct xs → find_duplicate seen xs ≡ none
unfolding find_duplicate
find_duplicate_complete seen [] f d = refl
find_duplicate_complete seen (x ∷ xs) (fx, f) (dx, d) =
    rw fx (find_duplicate_complete (x ∷ seen) xs (Fresh-cons x seen xs dx f) d)
