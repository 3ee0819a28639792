-- ===== src/Slack/Middleware.antt =====
-- pkg/slack/middleware.go: VerifyRequest. HMAC-SHA256 with its hexadecimal print and the form
-- parser are library code: parameters. ParseForm and FormValue read the query of the URL as well as the
-- body, so the form parser takes both. The clock gives seconds since 1970. A request that passes goes to
-- the next handler, with the user of the form in its header.
pub mod Verified
use jit_bot.Base.{
  ℕ, zero, suc, ◌+◌, ◌*◌, ◌-◌, Bool, true, false, ◌||◌, ◌&&◌, List, [], ◌∷◌, ◌++◌, Option, none,
  some, Bytes, codes, is_digit, ltb, leb, ◌==◌, str_eq, if◌then◌else◌,
}
use jit_bot.Base.Int.{ℤ, pos, negsuc, ◌-ℤ◌, wrap64, ltb_ℤ}
use jit_bot.Webhook.Duration.{is_nil}

pub record SlackRequest : Type 0 where
  pub timestamp : Bytes
  pub signature : Bytes
  pub content_type : Bytes
  pub user_id : Bytes
  pub user_name : Bytes
  -- The query of the URL, as it is sent.
  pub query : Bytes
  pub body : Option Bytes

pub data SlackFailure : Type 0 where
  missing_headers bad_timestamp too_old unreadable bad_signature : SlackFailure

pub data Verdict : Type 0 where
  rejected : ℕ → SlackFailure → Verdict
  passed : SlackRequest → Verdict

-- The number of a run of digits, behind what is read; `none` at another byte.
unfoldable pub digits_from : ℕ → Bytes → Option ℕ
digits_from n [] = some n
digits_from n (c ∷ s) =
    let rest = digits_from (n * 10 + (c - b'0')) s in if is_digit c then rest else none

abbrev pub max_int64 : ℕ
max_int64 = 9223372036854775807

abbrev pub nonnegative : Option ℕ → Option ℤ
nonnegative none = none
nonnegative (some n) = if leb n max_int64 then some (pos n) else none

abbrev pub negated : Option ℕ → Option ℤ
negated none = none
negated (some zero) = some (pos 0)
negated (some (suc n)) = if leb n max_int64 then some (negsuc n) else none

abbrev pub magnitude : Bytes → Option ℕ
unfolding digits_from
magnitude s = if is_nil s then none else digits_from 0 s

-- strconv.ParseInt for base 10 and 64 bits: a sign that may be left out, digits, and the range.
unfoldable pub parse_int64 : Bytes → Option ℤ
unfolding digits_from
parse_int64 [] = none
parse_int64 (c ∷ s) =
    if c == b'-'
    then negated (magnitude s)
    else if c == b'+'
    then nonnegative (magnitude s)
    else nonnegative (magnitude (c ∷ s))

-- The age in seconds, as the subtraction of int64 gives it.
unfoldable pub age : ℤ → ℤ → ℤ
age now ts = wrap64 (now -ℤ ts)

module _ (hmac_hex : Bytes → Bytes → Bytes) (form : Bytes → Bytes → Option (Bytes → Bytes))
    (signing_secret : Bytes) where
  unfoldable pub computed_signature : Bytes → Bytes → Bytes
  computed_signature timestamp body =
      codes "v0=" ++ hmac_hex signing_secret (codes "v0:" ++ (timestamp ++ (codes ":" ++ body)))

  -- The headers of the user that a form names.
  abbrev pub of_form : Option (Bytes → Bytes) → SlackRequest → SlackRequest
  of_form none req = req
  of_form (some value) req =
      if is_nil (value (codes "user_id"))
      then req
      else record req { user_id = value (codes "user_id"); user_name = value (codes "user_name") }

  unfoldable pub with_form_user : Bytes → SlackRequest → SlackRequest
  with_form_user body req =
      if str_eq req.content_type (codes "application/x-www-form-urlencoded")
      then of_form (form req.query body) req
      else req

  -- The checks behind the age.
  unfoldable pub verify_body : SlackRequest → Verdict
  verify_body req = elim req.body [
    | none ↦ rejected 500 unreadable
    | some body ↦
        if str_eq req.signature (computed_signature req.timestamp body)
        then passed (with_form_user body req)
        else rejected 401 bad_signature
  ]

  unfoldable pub verify_request : ℤ → SlackRequest → Verdict
  verify_request now req =
      if is_nil req.timestamp || is_nil req.signature
      then rejected 401 missing_headers
      else elim (parse_int64 req.timestamp) [
        | none ↦ rejected 400 bad_timestamp
        | some ts ↦ if ltb_ℤ (pos 300) (age now ts) then rejected 401 too_old else verify_body req
      ]
