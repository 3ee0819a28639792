-- ===== src/Webhook/Regex.antt =====
-- The regular expressions of pkg/webhook/validation.go that are anchored at both ends, and Go's
-- MatchString on them. A class is a test on a byte; all the classes are ASCII, so bytes serve for
-- runes. The matcher takes derivatives; Regex/Language says which texts it accepts.
pub mod Language
use jit_bot.Base.{
  ℕ, zero, suc, Bool, true, false, not, ◌&&◌, ◌||◌, List, [], ◌∷◌, Bytes, ◌==◌, is_lower, is_upper,
  is_digit, if◌then◌else◌,
}

pub data Regex : Type 0 where
  fail eps : Regex
  cls : (ℕ → Bool) → Regex
  cat alt : Regex → Regex → Regex
  star : Regex → Regex

unfoldable pub nullable : Regex → Bool
nullable fail = false
nullable eps = true
nullable (cls p) = false
nullable (cat r q) = nullable r && nullable q
nullable (alt r q) = nullable r || nullable q
nullable (star r) = true

unfoldable pub deriv : ℕ → Regex → Regex
unfolding nullable
deriv c fail = fail
deriv c eps = fail
deriv c (cls p) = if p c then eps else fail
deriv c (cat r q) =
    let tail = deriv c q in
    let both = cat (deriv c r) q in if nullable r then alt both tail else both
deriv c (alt r q) = alt (deriv c r) (deriv c q)
deriv c (star r) = cat (deriv c r) (star r)

-- regexp.MatchString for `^r$`.
unfoldable pub match_string : Regex → Bytes → Bool
unfolding nullable deriv
match_string r [] = nullable r
match_string r (c ∷ s) = match_string (deriv c r) s

abbrev pub opt : Regex → Regex
opt r = alt r eps

abbrev pub plus : Regex → Regex
plus r = cat r (star r)

abbrev pub times : ℕ → Regex → Regex
times zero r = eps
times (suc n) r = cat r (times n r)

abbrev pub chr : ℕ → Regex
chr c = cls (λ d. d == c)

-- `^\d{12}$`
abbrev pub account_regex : Regex
account_regex = times 12 (cls is_digit)

-- `^[a-z]{2}-[a-z]+-\d{1}$`
abbrev pub region_regex : Regex
region_regex =
    cat (times 2 (cls is_lower))
      (cat (chr b'-') (cat (plus (cls is_lower)) (cat (chr b'-') (times 1 (cls is_digit)))))

abbrev pub is_name_end : ℕ → Bool
is_name_end c = is_lower c || is_digit c

abbrev pub is_name_byte : ℕ → Bool
is_name_byte c = is_name_end c || c == b'-'

-- `^[a-z0-9]([-a-z0-9]*[a-z0-9])?$`
abbrev pub namespace_regex : Regex
namespace_regex = cat (cls is_name_end) (opt (cat (star (cls is_name_byte)) (cls is_name_end)))

-- `^[a-z][a-z0-9-]*[a-z0-9]$`
abbrev pub team_regex : Regex
team_regex = cat (cls is_lower) (cat (star (cls is_name_byte)) (cls is_name_end))

-- `^U[A-Z0-9]{10}$`
abbrev pub user_id_regex : Regex
user_id_regex = cat (chr b'U') (times 10 (cls (λ c. is_upper c || is_digit c)))

abbrev pub is_alpha : ℕ → Bool
is_alpha c = is_lower c || is_upper c

abbrev pub is_domain_byte : ℕ → Bool
is_domain_byte c = is_alpha c || is_digit c || c == b'.' || c == b'-'

abbrev pub is_local_byte : ℕ → Bool
is_local_byte c =
    is_alpha c || is_digit c || c == b'.' || c == b'_' || c == b'%' || c == b'+' || c == b'-'

-- `^[a-zA-Z0-9._%+-]+@[a-zA-Z0-9.-]+\.[a-zA-Z]{2,}$`
abbrev pub email_regex : Regex
email_regex = cat (plus (cls is_local_byte)) (
    cat (chr b'@') (
      cat (plus (cls is_domain_byte))
        (cat (chr b'.') (cat (times 2 (cls is_alpha)) (star (cls is_alpha))))))
