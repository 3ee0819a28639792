-- ===== src/Webhook/Regex/Language.antt =====
-- The language of a regular expression, and that the matcher decides it.
use jit_bot.Base.{
  ℕ, ◌≡◌, refl, sym, ap, ◌⊎◌, inl, inr, ◌↔◌, true, [], ◌∷◌, ◌++◌, arith, Bytes, Bool-cases, &&-true,
  ||-true,
}
use jit_bot.Webhook.Regex.{Regex, fail, eps, cls, cat, alt, star, nullable, deriv, match_string}

-- Zero or more non-empty texts of a language, one behind the other.
pub data Star (P : Bytes → Type 0) : Bytes → Type 0 where
  done : Star P []
  more : {u : Bytes} (c : ℕ) (s t : Bytes) → P (c ∷ s) → Star P t → u ≡ c ∷ (s ++ t) → Star P u

abbrev pub Lang : Regex → Bytes → Type 0
Lang fail u = ⊥
Lang eps u = u ≡ []
Lang (cls p) u = (c : ℕ) × (u ≡ c ∷ []) × (p c ≡ true)
Lang (cat r q) u = (s : Bytes) × (t : Bytes) × (u ≡ s ++ t) × Lang r s × Lang q t
Lang (alt r q) u = Lang r u ⊎ Lang q u
Lang (star r) u = Star (Lang r) u

nullable_sound : (r : Regex) → nullable r ≡ true → Lang r []
unfolding nullable
nullable_sound fail h = cc
nullable_sound eps h = refl
nullable_sound (cls p) h = cc
nullable_sound (cat r q) h =
    let (hr, hq) = &&-true (nullable r) (nullable q) h in
    ([], [], refl, nullable_sound r hr, nullable_sound q hq)
nullable_sound (alt r q) h = elim (||-true (nullable r) (nullable q) h) [
  | inl a ↦ inl (nullable_sound r a)
  | inr b ↦ inr (nullable_sound q b)
]
nullable_sound (star r) h = done

append-eq-nil : (s t : Bytes) → [] ≡ s ++ t → (s ≡ []) × (t ≡ [])
append-eq-nil [] t e = (refl, sym e)
append-eq-nil (c ∷ s) t e = cc

nullable_complete : (r : Regex) → Lang r [] → nullable r ≡ true
unfolding nullable
nullable_complete fail h = elim h [ ]
nullable_complete eps h = refl
nullable_complete (cls p) h = cc (h.1)
nullable_complete (cat r q) (s, t, e, hs, ht) =
    let (es, et) = append-eq-nil s t e in
    rw (nullable_complete r (rw es at hs)) (nullable_complete q (rw et at ht))
nullable_complete (alt r q) (inl h) = rw (nullable_complete r h)
nullable_complete (alt r q) (inr h) = let e = nullable_complete q h in ground arith
nullable_complete (star r) h = refl

cons-append-split :
    (c : ℕ) (u s t : Bytes)
    → c ∷ u ≡ s ++ t
    → ((s ≡ []) × (t ≡ c ∷ u)) ⊎ ((s' : Bytes) × (s ≡ c ∷ s') × (u ≡ s' ++ t))
cons-append-split c u [] t e = inl (refl, sym e)
cons-append-split c u (d ∷ s) t e = inr (s, ground (arith, e), ground (arith, e))

deriv_sound : (c : ℕ) (r : Regex) (u : Bytes) → Lang (deriv c r) u → Lang r (c ∷ u)
unfolding deriv
deriv_sound c fail u h = h
deriv_sound c eps u h = elim h [ ]
deriv_sound c (cls p) u h = elim (Bool-cases (p c)) [
  | inl e ↦ (c, ap (λ (v : Bytes). c ∷ v) (rw e at h), e)
  | inr e ↦ absurd (rw e at h)
]
deriv_sound c (cat r q) u h = elim (Bool-cases (nullable r)) [
  | inl n ↦ split n (deriv_sound c r) (deriv_sound c q u) (rw n at h)
  | inr n ↦ first (deriv_sound c r) (rw n at h)
]
  where
    first :
        ((v : Bytes) → Lang (deriv c r) v → Lang r (c ∷ v))
        → Lang (cat (deriv c r) q) u
        → Lang (cat r q) (c ∷ u)
    first ih (s, t, e, hs, ht) = (c ∷ s, t, ap (λ (v : Bytes). c ∷ v) e, ih s hs, ht)

    split :
        nullable r ≡ true
        → ((v : Bytes) → Lang (deriv c r) v → Lang r (c ∷ v))
        → (Lang (deriv c q) u → Lang q (c ∷ u))
        → Lang (alt (cat (deriv c r) q) (deriv c q)) u
        → Lang (cat r q) (c ∷ u)
    split n ih ihq (inl a) = first ih a
    split n ih ihq (inr b) = ([], c ∷ u, refl, nullable_sound r n, ihq b)
deriv_sound c (alt r q) u (inl h) = inl (deriv_sound c r u h)
deriv_sound c (alt r q) u (inr h) = inr (deriv_sound c q u h)
deriv_sound c (star r) u (s, t, e, hs, ht) =
    more c s t (deriv_sound c r s hs) ht (ap (λ (v : Bytes). c ∷ v) e)

in_first :
    (c : ℕ) (r q : Regex) (u : Bytes) → Lang (cat (deriv c r) q) u → Lang (deriv c (cat r q)) u
unfolding deriv
in_first c r q u h = elim (Bool-cases (nullable r)) [ inl n ↦ rw n (inl h) | inr n ↦ rw n h ]

deriv_complete : (c : ℕ) (r : Regex) (u : Bytes) → Lang r (c ∷ u) → Lang (deriv c r) u
unfolding deriv
deriv_complete c fail u h = h
deriv_complete c eps u h = cc
deriv_complete c (cls p) u (d, e, pd) =
    let pc : p c ≡ true = ground (arith, pd, e) in rw pc (ground (arith, e))
deriv_complete c (cat r q) u (s, t, e, hs, ht) = elim (cons-append-split c u s t e) [
  | inl (es, et) ↦ rw (nullable_complete r (rw es at hs)) (inr (deriv_complete c q u (rw et at ht)))
  | inr (s', es, eu) ↦ in_first c r q u (s', t, eu, deriv_complete c r s' (rw es at hs), ht)
]
deriv_complete c (alt r q) u (inl h) = inl (deriv_complete c r u h)
deriv_complete c (alt r q) u (inr h) = inr (deriv_complete c q u h)
deriv_complete c (star r) u (more d s t hs ht e) =
    let d=c : d ≡ c = ground (arith, e) in
    (s, t, ground (arith, e), deriv_complete c r s (rw d=c at hs), ht)

match_string_sound : (r : Regex) (u : Bytes) → match_string r u ≡ true → Lang r u
unfolding match_string
match_string_sound r [] h = nullable_sound r h
match_string_sound r (c ∷ u) h = deriv_sound c r u (match_string_sound (deriv c r) u h)

match_string_complete : (r : Regex) (u : Bytes) → Lang r u → match_string r u ≡ true
unfolding match_string
match_string_complete r [] h = nullable_complete r h
match_string_complete r (c ∷ u) h = match_string_complete (deriv c r) u (deriv_complete c r u h)

-- The matcher accepts exactly the texts of the expression's language.
pub match_string_iff : (r : Regex) (u : Bytes) → (match_string r u ≡ true) ↔ Lang r u
match_string_iff r u = (match_string_sound r u, match_string_complete r u)
