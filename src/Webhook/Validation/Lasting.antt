-- ===== src/Webhook/Validation/Lasting.antt =====
-- That validateDuration of pkg/webhook/validation.go accepts exactly the durations of Rules.
use jit_bot.Base.{
  ℕ, ◌+◌, ◌*◌, ◌-◌, ◌≡◌, ◌↔◌, refl, ap, sym, ◌∙◌, List, [], ◌∷◌, ◌++◌, none, Bytes, All,
}
use jit_bot.Webhook.Duration.{is_nil_no, digits_value, rebuilt, validate_duration, parse_duration}
use jit_bot.Webhook.Duration.Format.{IsComponent, parse_duration_iff}
use jit_bot.Webhook.Duration.Accepts.{Fits, exact, check_limits-some, validate_duration_iff}
use jit_bot.Webhook.Validation.Rules.{IsPart, IsDuration, decimal, spell, nanoseconds}

decimal-digits_value : (n : ℕ) (s : Bytes) → digits_value n s ≡ decimal n s
unfolding digits_value
decimal-digits_value n [] = refl
decimal-digits_value n (c ∷ s) = decimal-digits_value (n * 10 + (c - b'0')) s

spell-rebuilt : (ms : List (Bytes × ℕ)) → rebuilt ms ≡ spell ms
unfolding rebuilt
spell-rebuilt [] = refl
spell-rebuilt ((run, unit) ∷ ms) = ap (λ (s : Bytes). run ++ (unit ∷ s)) (spell-rebuilt ms)

nanoseconds-exact : (ms : List (Bytes × ℕ)) → exact ms ≡ nanoseconds ms
unfolding exact
nanoseconds-exact [] = refl
nanoseconds-exact ((run, unit) ∷ ms) = rw (decimal-digits_value 0 run, nanoseconds-exact ms) refl

parts_sound : (ms : List (Bytes × ℕ)) → All IsComponent ms → All Fits ms → All IsPart ms
parts_sound [] h f = tt
parts_sound ((run, unit) ∷ ms) (m, h) (fm, f) = (
  record {
    some_digits = (is_nil_no run).0 m.some_digits;
    digits = m.all_digits;
    known_unit = m.unit_known;
    in_int64 = rw (decimal-digits_value 0 run) at fm;
  },
  parts_sound ms h f,
)

parts_complete : (ms : List (Bytes × ℕ)) → All IsPart ms → All IsComponent ms × All Fits ms
parts_complete [] h = (tt, tt)
parts_complete ((run, unit) ∷ ms) (m, h) =
    let (w, f) = parts_complete ms h in
    (
      (
        record {
          some_digits = (is_nil_no run).1 m.some_digits;
          all_digits = m.digits;
          unit_known = m.known_unit;
        },
        w,
      ),
      (rw (decimal-digits_value 0 run) m.in_int64, f),
    )

none-IsDuration : (s : Bytes) → validate_duration s ≡ none → IsDuration s
unfolding validate_duration
none-IsDuration s h =
    let (t, e) = check_limits-some (parse_duration s) h in
    let (ms, ne, w, same, total) = (parse_duration_iff s t).0 e in
    let (f, lo, hi) = (validate_duration_iff ms ne w).0 (rw same at h) in
    record {
      parts = ms;
      some_part = ne;
      spelled = same ∙ spell-rebuilt ms;
      well_formed = parts_sound ms w f;
      long_enough = rw (nanoseconds-exact ms) at lo;
      short_enough = rw (nanoseconds-exact ms) at hi;
    }

duration_complete : (s : Bytes) → IsDuration s → validate_duration s ≡ none
duration_complete s d =
    let (w, f) = parts_complete d.parts d.well_formed in
    let same : s ≡ rebuilt d.parts = d.spelled ∙ sym (spell-rebuilt d.parts) in
    rw same (
      (validate_duration_iff d.parts d.some_part w).1 (
        f,
        rw (nanoseconds-exact d.parts) d.long_enough,
        rw (nanoseconds-exact d.parts) d.short_enough,
      ))

pub validate_duration-IsDuration : (s : Bytes) → (validate_duration s ≡ none) ↔ IsDuration s
validate_duration-IsDuration s = (none-IsDuration s, duration_complete s)
