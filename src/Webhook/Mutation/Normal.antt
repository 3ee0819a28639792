-- ===== src/Webhook/Mutation/Normal.antt =====
-- The normal form of a duration (normalizeDuration of pkg/webhook/mutation.go) leaves the durations
-- that the validating webhook reads as they are.
use jit_bot.Base.{
  ℕ, ◌≡◌, refl, ap, Bool, true, false, ◌||◌, List, [], ◌∷◌, arith, Bytes, codes, to_lower, lower,
  has_prefix, replace_from, replace_all, All, All-append, is_digit, if◌then◌else◌,
}
use jit_bot.Webhook.Duration.{is_unit, rebuilt}
use jit_bot.Webhook.Duration.Format.{IsComponent, IsDigit}
use jit_bot.Webhook.Mutation.{normalize_duration, replace_each}

-- The bytes of a duration: digits and units.
abbrev pub is_duration_byte : ℕ → Bool
is_duration_byte c = is_digit c || is_unit c

abbrev pub IsDurationByte : ℕ → Type 0
IsDurationByte c = is_duration_byte c ≡ true

-- A text with a byte that no duration holds.
unfoldable pub has_foreign : Bytes → Bool
has_foreign [] = false
has_foreign (c ∷ s) = if is_duration_byte c then has_foreign s else true

no_prefix : (p s : Bytes) → has_foreign p ≡ true → All IsDurationByte s → has_prefix p s ≡ false
unfolding has_foreign has_prefix
no_prefix [] s f h = cc
no_prefix (x ∷ p) [] f h = refl
no_prefix (x ∷ p) (c ∷ s) f (hc, h) = ground (arith, no_prefix p s)

replace_from_same :
    (old new s : Bytes)
    → has_foreign old ≡ true
    → All IsDurationByte s
    → replace_from old new 0 s ≡ s
unfolding replace_from
replace_from_same old new [] f h = refl
replace_from_same old new (c ∷ s) f (hc, h) =
    rw (no_prefix old (c ∷ s) f (hc, h), replace_from)
      (ap (λ (r : Bytes). c ∷ r) (replace_from_same old new s f h))

replace_each_same :
    (table : List (Bytes × Bytes)) (s : Bytes)
    → All (λ e. has_foreign e.0 ≡ true) table
    → All IsDurationByte s
    → replace_each table s ≡ s
unfolding replace_each replace_all
replace_each_same [] s f h = refl
replace_each_same ((old, new) ∷ table) s (fo, f) h =
    rw (replace_from_same old new s fo h) (replace_each_same table s f h)

lower_same : (c : ℕ) → is_duration_byte c ≡ true → lower c ≡ c
unfolding lower
lower_same c h = ground arith

to_lower_same : (s : Bytes) → All IsDurationByte s → to_lower s ≡ s
unfolding to_lower
to_lower_same [] h = refl
to_lower_same (c ∷ s) (hc, h) = rw (lower_same c hc, to_lower_same s h)

digits_bytes : (s : Bytes) → All IsDigit s → All IsDurationByte s
digits_bytes [] h = tt
digits_bytes (c ∷ s) (hc, h) = (ground arith, digits_bytes s h)

rebuilt_bytes : (ms : List (Bytes × ℕ)) → All IsComponent ms → All IsDurationByte (rebuilt ms)
unfolding rebuilt
rebuilt_bytes [] h = tt
rebuilt_bytes ((run, unit) ∷ ms) (m, h) =
    All-append IsDurationByte run (unit ∷ rebuilt ms) (digits_bytes run m.all_digits)
      (let u = m.unit_known in ground arith, rebuilt_bytes ms h)

-- A duration of digits and units is its own normal form, in whatever order the table of spellings
-- is visited: every spelling that the table replaces has a byte which no such duration holds.
pub normalize_duration_same :
    (table : List (Bytes × Bytes)) (ms : List (Bytes × ℕ))
    → All (λ e. has_foreign e.0 ≡ true) table
    → All IsComponent ms
    → normalize_duration table (rebuilt ms) ≡ rebuilt ms
unfolding normalize_duration replace_all
normalize_duration_same table ms f w =
    let h = rebuilt_bytes ms w in
    rw (to_lower_same (rebuilt ms) h) (
      rw (replace_each_same table (rebuilt ms) f h)
        (replace_from_same (codes " ") [] (rebuilt ms) space_foreign h))
  where
    space_foreign : has_foreign (codes " ") ≡ true
    space_foreign = unfold has_foreign in refl
