-- ===== src/Webhook/Duration/Format.antt =====
-- The texts that parseDuration reads: one or more components, each a run of digits and a unit.
use jit_bot.Base.{
  ℕ, ◌≡◌, refl, sym, ap, ◌∙◌, ◌≢◌, ◌↔◌, true, false, List, [], ◌∷◌, ◌++◌, append-nil, append_assoc,
  arith, Bytes, is_digit, All, All-append, inl, inr, Bool-cases, str_eq_iff, str_eq_refl,
}
use jit_bot.Base.Result.{ok}
use jit_bot.Webhook.Duration.{
  is_unit, is_nil, find_all, sum_matches, rebuilt, parse_matches, parse_duration,
}

abbrev pub IsDigit : ℕ → Type 0
IsDigit c = is_digit c ≡ true

-- A component as the pattern `\d+[dhms]` has it.
pub record IsComponent (m : Bytes × ℕ) : Type 0 where
  pub some_digits : is_nil m.0 ≡ false
  pub all_digits : All IsDigit m.0
  pub unit_known : is_unit m.1 ≡ true

find_all_components : (run s : Bytes) → All IsDigit run → All IsComponent (find_all run s)
unfolding find_all
find_all_components run [] h = tt
find_all_components run (c ∷ s) h = elim (Bool-cases (is_digit c)) [
  | inl d ↦ rw d (find_all_components (run ++ c ∷ []) s (All-append IsDigit run (c ∷ []) h (d, tt)))
  | inr n ↦
      let fresh : All IsComponent (find_all [] s) = find_all_components [] s tt in
      rw n (elim (Bool-cases (is_nil run)) [
        | inl e ↦ rw e fresh
        | inr e ↦ rw e (elim (Bool-cases (is_unit c)) [
          | inl u ↦ rw u (record { some_digits = e; all_digits = h; unit_known = u }, fresh)
          | inr u ↦ rw u fresh
        ])
      ])
]

find_all-digits :
    (run ds s : Bytes) → All IsDigit ds → find_all run (ds ++ s) ≡ find_all (run ++ ds) s
unfolding find_all
find_all-digits run [] s h = rw append-nil
find_all-digits run (c ∷ ds) s (hc, h) =
    rw hc (rw (find_all-digits (run ++ c ∷ []) ds s h) (rw append_assoc))

unit_not_digit : (c : ℕ) → is_unit c ≡ true → is_digit c ≡ false
unit_not_digit c h = ground arith

find_all_unit :
    (run : Bytes) (c : ℕ) (s : Bytes)
    → is_nil run ≡ false
    → is_unit c ≡ true
    → find_all run (c ∷ s) ≡ (run, c) ∷ find_all [] s
unfolding find_all
find_all_unit run c s e u = rw (unit_not_digit c u) (rw e (rw u))

pub find_all-rebuilt : (ms : List (Bytes × ℕ)) → All IsComponent ms → find_all [] (rebuilt ms) ≡ ms
unfolding rebuilt
find_all-rebuilt [] h = unfold find_all in refl
find_all-rebuilt ((run, unit) ∷ ms) (m, h) =
    find_all-digits [] run (unit ∷ rebuilt ms) m.all_digits
    ∙ find_all_unit run unit (rebuilt ms) m.some_digits m.unit_known
    ∙ ap (λ (r : List (Bytes × ℕ)). (run, unit) ∷ r) (find_all-rebuilt ms h)

pub parse_matches_sound :
    (s : Bytes) (ms : List (Bytes × ℕ)) (t : ℕ)
    → parse_matches s ms ≡ ok t
    → (ms ≢ []) × (sum_matches 0 ms ≡ ok t) × (rebuilt ms ≡ s)
unfolding parse_matches
parse_matches_sound s [] t h = cc
parse_matches_sound s (m ∷ ms) t h = (
  λ e. cc,
  ground (arith, str_eq_iff (rebuilt (m ∷ ms)) s),
  ground (arith, str_eq_iff (rebuilt (m ∷ ms)) s),
)

parse_matches_complete :
    (ms : List (Bytes × ℕ)) (t : ℕ)
    → ms ≢ []
    → sum_matches 0 ms ≡ ok t
    → parse_matches (rebuilt ms) ms ≡ ok t
unfolding parse_matches
parse_matches_complete [] t h e = absurd (h refl)
parse_matches_complete (m ∷ ms) t h e = ground (arith, str_eq_refl (rebuilt (m ∷ ms)))

is_nil-rebuilt : (ms : List (Bytes × ℕ)) → ms ≢ [] → is_nil (rebuilt ms) ≡ false
unfolding rebuilt
is_nil-rebuilt [] h = absurd (h refl)
is_nil-rebuilt (([], unit) ∷ ms) h = refl
is_nil-rebuilt ((c ∷ run, unit) ∷ ms) h = refl

parse-rebuilt :
    (ms : List (Bytes × ℕ)) (t : ℕ)
    → ms ≢ []
    → All IsComponent ms
    → sum_matches 0 ms ≡ ok t
    → parse_duration (rebuilt ms) ≡ ok t
unfolding parse_duration
parse-rebuilt ms t h w e =
    rw (is_nil-rebuilt ms h) (rw (find_all-rebuilt ms w) (parse_matches_complete ms t h e))

pub parse-find_all :
    (s : Bytes) (t : ℕ) → parse_duration s ≡ ok t → parse_matches s (find_all [] s) ≡ ok t
unfolding parse_duration
parse-find_all s t h = ground arith

-- A text is accepted with a total exactly if it is one or more components, one behind the other,
-- each a run of digits and a known unit, whose wrapped sum is that total.
pub parse_duration_iff :
    (s : Bytes) (t : ℕ)
    → (parse_duration s ≡ ok t) ↔ (
        (ms : List (Bytes × ℕ)) × (ms ≢ [])
        × All IsComponent ms
        × (s ≡ rebuilt ms)
        × (sum_matches 0 ms ≡ ok t))
parse_duration_iff s t = (
  λ h.
      let (ne, total, whole) = parse_matches_sound s (find_all [] s) t (parse-find_all s t h) in
      (find_all [] s, ne, find_all_components [] s tt, sym whole, total),
  λ (ms, ne, w, e, total). rw e (parse-rebuilt ms t ne w total),
)
