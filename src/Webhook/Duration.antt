-- ===== src/Webhook/Duration.antt =====
-- validateDuration and parseDuration of pkg/webhook/validation.go. A `time.Duration` is its 64-bit
-- pattern, a number below 2 ^ 64 in two's complement, so sums and products wrap as in Go.
pub mod Format
pub mod Accepts
use jit_bot.Base.{
  ◌≡◌, ◌≢◌, ◌↔◌, refl, ℕ, ◌+◌, ◌-◌, ◌*◌, ◌%◌, ◌^◌, Bool, true, false, ◌&&◌, ◌||◌, List, [], ◌∷◌,
  ◌++◌, Option, none, some, Bytes, ◌==◌, ltb, is_digit, if◌then◌else◌, str_eq,
}
use jit_bot.Base.Result.{Result, ok, err}

abbrev pub mod64 : ℕ
mod64 = 18446744073709551616

abbrev pub half64 : ℕ
half64 = 9223372036854775808

unfoldable pub add64 : ℕ → ℕ → ℕ
add64 a b = (a + b) % mod64

unfoldable pub mul64 : ℕ → ℕ → ℕ
mul64 a b = (a * b) % mod64

-- `<` on the signed numbers that two patterns stand for.
unfoldable pub slt64 : ℕ → ℕ → Bool
slt64 a b = ltb ((a + half64) % mod64) ((b + half64) % mod64)

abbrev pub second : ℕ
second = 1000000000

abbrev pub minute : ℕ
minute = 60000000000

abbrev pub hour : ℕ
hour = 3600000000000

abbrev pub day : ℕ
day = 86400000000000

pub data DurationError : Type 0 where
  empty no_match bad_value bad_unit not_whole too_short too_long bad_format : DurationError

abbrev pub is_unit : ℕ → Bool
is_unit c = c == b'd' || c == b'h' || c == b'm' || c == b's'

abbrev pub is_nil : Bytes → Bool
is_nil [] = true
is_nil (c ∷ s) = false

-- The comparison of a text with "" tells the empty text.
pub is_nil_yes : (s : Bytes) → (is_nil s ≡ true) ↔ (s ≡ [])
is_nil_yes [] = (λ h. refl, λ h. refl)
is_nil_yes (c ∷ s) = (λ h. cc, λ h. cc)

pub is_nil_no : (s : Bytes) → (is_nil s ≡ false) ↔ (s ≢ [])
is_nil_no [] = (λ h. cc, λ h. absurd (h refl))
is_nil_no (c ∷ s) = (λ h e. cc, λ h. refl)

-- FindAllStringSubmatch of `(\d+)([dhms])`, as pairs of the two groups. The first argument is the
-- run of digits just read: a match ends where a unit follows it, and any other byte drops it.
unfoldable pub find_all : Bytes → Bytes → List (Bytes × ℕ)
find_all run [] = []
find_all run (c ∷ s) =
    let longer = find_all (run ++ c ∷ []) s in
    let fresh = find_all [] s in
    if is_digit c
    then longer
    else if is_nil run
    then fresh
    else if is_unit c
    then (run, c) ∷ fresh
    else fresh

unfoldable pub digits_value : ℕ → Bytes → ℕ
digits_value n [] = n
digits_value n (c ∷ s) = digits_value (n * 10 + (c - b'0')) s

-- fmt.Sscanf of `%d` into an int, on a run of digits.
unfoldable pub scan_int : Bytes → Option ℕ
unfolding digits_value
scan_int run = if ltb (digits_value 0 run) half64 then some (digits_value 0 run) else none

-- The `switch` on the unit: what one match adds.
unfoldable pub component : ℕ → ℕ → Result DurationError ℕ
unfolding mul64
component value unit =
    if unit == b'd'
    then ok (mul64 (mul64 value 24) hour)
    else if unit == b'h'
    then ok (mul64 value hour)
    else if unit == b'm'
    then ok (mul64 value minute)
    else if unit == b's'
    then ok (mul64 value second)
    else err bad_unit

abbrev pub component_of : Option ℕ → ℕ → Result DurationError ℕ
component_of none unit = err bad_value
component_of (some value) unit = component value unit

unfoldable pub sum_matches : ℕ → List (Bytes × ℕ) → Result DurationError ℕ
sum_matches total [] = ok total
sum_matches total ((run, unit) ∷ rest) = elim (component_of (scan_int run) unit) [
  | err e ↦ err e
  | ok part ↦ sum_matches (add64 total part) rest
]

unfoldable pub rebuilt : List (Bytes × ℕ) → Bytes
rebuilt [] = []
rebuilt ((run, unit) ∷ rest) = run ++ unit ∷ rebuilt rest

-- What parseDuration does with the matches.
unfoldable pub parse_matches : Bytes → List (Bytes × ℕ) → Result DurationError ℕ
parse_matches duration [] = err no_match
parse_matches duration (m ∷ ms) = elim (sum_matches 0 (m ∷ ms)) [
  | err e ↦ err e
  | ok total ↦ if str_eq (rebuilt (m ∷ ms)) duration then ok total else err not_whole
]

unfoldable pub parse_duration : Bytes → Result DurationError ℕ
unfolding find_all parse_matches
parse_duration duration =
    if is_nil duration then err empty else parse_matches duration (find_all [] duration)

abbrev pub min_duration : ℕ
min_duration = 15 * minute

abbrev pub max_duration : ℕ
max_duration = 7 * 24 * hour

unfoldable pub check_limits : Result DurationError ℕ → Option DurationError
unfolding slt64
check_limits (err e) = some bad_format
check_limits (ok parsed) =
    if slt64 parsed min_duration
    then some too_short
    else if slt64 max_duration parsed
    then some too_long
    else none

unfoldable pub validate_duration : Bytes → Option DurationError
unfolding parse_duration check_limits
validate_duration duration = check_limits (parse_duration duration)
