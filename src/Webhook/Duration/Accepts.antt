-- ===== src/Webhook/Duration/Accepts.antt =====
-- Which durations validateDuration accepts, by their value in nanoseconds.
use jit_bot.Base.{
  ℕ, ◌+◌, ◌*◌, ◌%◌, ◌<◌, ◌≤◌, ◌≡◌, refl, ap, ◌∙◌, ◌≢◌, ◌↔◌, true, List, [], ◌∷◌, arith, Bytes, All,
  none, some, inl, inr, ◌==◌, if◌then◌else◌, Option-cases,
}
use jit_bot.Base.Result.{Result, ok, err, Result-cases}
use jit_bot.Webhook.Duration.{
  mod64, half64, is_unit, second, minute, hour, day, digits_value, scan_int, component,
  component_of, sum_matches, rebuilt, find_all, parse_duration, validate_duration, check_limits,
  add64, min_duration, max_duration, DurationError,
}
use jit_bot.Webhook.Duration.Format.{
  IsComponent, find_all-rebuilt, parse-find_all, parse_matches_sound, parse_duration_iff,
}

-- The length of a unit.
abbrev pub unit_length : ℕ → ℕ
unit_length c =
    if c == b'd' then day else if c == b'h' then hour else if c == b'm' then minute else second

-- The number of nanoseconds that the components spell, with no bound.
unfoldable pub exact : List (Bytes × ℕ) → ℕ
exact [] = 0
exact ((run, unit) ∷ rest) = digits_value 0 run * unit_length unit + exact rest

abbrev pub Fits : Bytes × ℕ → Type 0
Fits m = digits_value 0 m.0 < half64

component_exact : (v u : ℕ) → is_unit u ≡ true → component v u ≡ ok ((v * unit_length u) % mod64)
unfolding component
component_exact v u h = ground arith

wrap_add : (a p e : ℕ) → ((a + p % mod64) % mod64 + e) % mod64 ≡ (a + (p + e)) % mod64
wrap_add a p e = omega arith

scan_int_fits :
    (run : Bytes) → digits_value 0 run < half64 → scan_int run ≡ some (digits_value 0 run)
unfolding scan_int
scan_int_fits run h = ground arith

sum_matches-cons :
    (acc part : ℕ) (m : Bytes × ℕ) (ms : List (Bytes × ℕ))
    → component_of (scan_int m.0) m.1 ≡ ok part
    → sum_matches acc (m ∷ ms) ≡ sum_matches (add64 acc part) ms
unfolding sum_matches
sum_matches-cons acc part m ms h = rw (h, sum_matches)

sum_matches-exact :
    (acc : ℕ) (ms : List (Bytes × ℕ))
    → acc < mod64
    → All IsComponent ms
    → All Fits ms
    → sum_matches acc ms ≡ ok ((acc + exact ms) % mod64)
unfolding exact add64
sum_matches-exact acc [] h w f = unfold sum_matches in ground arith
sum_matches-exact acc ((run, unit) ∷ ms) h (w, ws) (f, fs) =
    let v = digits_value 0 run in
    let part = (v * unit_length unit) % mod64 in
    sum_matches-cons acc part (run, unit) ms
      (rw (scan_int_fits run f) (component_exact v unit w.unit_known))
    ∙ sum_matches-exact (add64 acc part) ms (omega arith) ws fs
    ∙ ap {B = Result DurationError ℕ} (λ n. ok n) (wrap_add acc (v * unit_length unit) (exact ms))

scan_int-some : (run : Bytes) (v : ℕ) → scan_int run ≡ some v → digits_value 0 run < half64
unfolding scan_int
scan_int-some run v h = ground arith

component_of-Fits :
    (run : Bytes) (unit part : ℕ)
    → component_of (scan_int run) unit ≡ ok part
    → digits_value 0 run < half64
component_of-Fits run unit part h = elim (Option-cases (scan_int run)) [
  | inl e ↦ cc (rw e at h)
  | inr (v, e) ↦ scan_int-some run v e
]

sum_matches-Fits : (acc t : ℕ) (ms : List (Bytes × ℕ)) → sum_matches acc ms ≡ ok t → All Fits ms
unfolding sum_matches
sum_matches-Fits acc t [] h = tt
sum_matches-Fits acc t ((run, unit) ∷ ms) h =
    elim (Result-cases (component_of (scan_int run) unit)) [
      | inl (part, e) ↦ (
        component_of-Fits run unit part e,
        sum_matches-Fits (add64 acc part) t ms (rw (e, sum_matches) at h),
      )
      | inr (x, e) ↦ cc (rw (e, sum_matches) at h)
    ]

check_limits_ok :
    (p : ℕ) → p < mod64 → (check_limits (ok p) ≡ none) ↔ ((min_duration ≤ p) × (p ≤ max_duration))
unfolding check_limits
check_limits_ok p h = (λ e. ground arith, λ e. ground arith)

parse_duration-exact :
    (ms : List (Bytes × ℕ))
    → ms ≢ []
    → All IsComponent ms
    → All Fits ms
    → parse_duration (rebuilt ms) ≡ ok (exact ms % mod64)
parse_duration-exact ms ne w f =
    (parse_duration_iff (rebuilt ms) (exact ms % mod64)).1
      (ms, ne, w, refl, sum_matches-exact 0 ms (omega arith) w f ∙ zero_sum)
  where
    zero_sum :
        ◌≡◌ {A = Result DurationError ℕ} (ok ((0 + exact ms) % mod64)) (ok (exact ms % mod64))
    zero_sum = ap {B = Result DurationError ℕ} (λ n. ok n) (omega arith)

pub check_limits-some : (r : Result DurationError ℕ) → check_limits r ≡ none → (t : ℕ) × (r ≡ ok t)
unfolding check_limits
check_limits-some (ok t) h = (t, refl)
check_limits-some (err e) h = cc

parse_duration-Fits :
    (ms : List (Bytes × ℕ)) (t : ℕ)
    → All IsComponent ms
    → parse_duration (rebuilt ms) ≡ ok t
    → All Fits ms
parse_duration-Fits ms t w h =
    let (_, total, _) =
      parse_matches_sound (rebuilt ms) (find_all [] (rebuilt ms)) t
        (parse-find_all (rebuilt ms) t h) in
    sum_matches-Fits 0 t ms (rw (find_all-rebuilt ms w) at total)

-- A duration of well-formed components is accepted exactly if each number fits an int and the sum
-- of the components, reduced modulo 2^64 nanoseconds, lies between 15 minutes and 7 days; so a
-- true sum above 7 days is accepted where it wraps into that range.
pub validate_duration_iff :
    (ms : List (Bytes × ℕ))
    → ms ≢ []
    → All IsComponent ms
    → (validate_duration (rebuilt ms) ≡ none)
      ↔ (All Fits ms × (min_duration ≤ exact ms % mod64) × (exact ms % mod64 ≤ max_duration))
unfolding validate_duration
validate_duration_iff ms ne w = (accepted, refuses_nothing)
  where
    in_range :
        All Fits ms
        → (check_limits (parse_duration (rebuilt ms)) ≡ none)
          ↔ ((min_duration ≤ exact ms % mod64) × (exact ms % mod64 ≤ max_duration))
    in_range f =
        rw (parse_duration-exact ms ne w f) (check_limits_ok (exact ms % mod64) (omega arith))

    accepted :
        check_limits (parse_duration (rebuilt ms)) ≡ none
        → All Fits ms × (min_duration ≤ exact ms % mod64) × (exact ms % mod64 ≤ max_duration)
    accepted h =
        let (t, e) = check_limits-some (parse_duration (rebuilt ms)) h in
        let f = parse_duration-Fits ms t w e in let (lo, hi) = (in_range f).0 h in (f, lo, hi)

    refuses_nothing :
        All Fits ms × (min_duration ≤ exact ms % mod64) × (exact ms % mod64 ≤ max_duration)
        → check_limits (parse_duration (rebuilt ms)) ≡ none
    refuses_nothing (f, lo, hi) = (in_range f).1 (lo, hi)
