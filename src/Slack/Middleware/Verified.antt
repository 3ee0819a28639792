-- ===== src/Slack/Middleware/Verified.antt =====
-- Which requests pass VerifyRequest of pkg/slack/middleware.go.
use jit_bot.Base.{
  ◌≡◌, ◌≢◌, ◌↔◌, refl, inl, inr, false, ◌||◌, [], ◌++◌, Option, none, some, Bytes, codes,
  Bool-cases, Option-cases, str_eq, str_eq_iff, arith,
}
use jit_bot.Base.Int.{ℤ, pos, ltb_ℤ, wrap64, ◌-ℤ◌}
use jit_bot.Webhook.Duration.{is_nil, is_nil_yes, is_nil_no}
use jit_bot.Slack.Middleware.{
  SlackRequest, passed, parse_int64, age, computed_signature, of_form, with_form_user, verify_body,
  verify_request,
}

str_eq-false : (s t : Bytes) → s ≢ t → str_eq s t ≡ false
str_eq-false s t h = ground (arith, str_eq_iff s t)

both_there : (s t : Bytes) → is_nil s || is_nil t ≡ false → (s ≢ []) × (t ≢ [])
both_there s t h = ((is_nil_no s).0 (ground arith), (is_nil_no t).0 (ground arith))

there_both : (s t : Bytes) → s ≢ [] → t ≢ [] → is_nil s || is_nil t ≡ false
there_both s t hs ht = rw ((is_nil_no s).1 hs) ((is_nil_no t).1 ht)

module _ (hmac_hex : Bytes → Bytes → Bytes) (form : Bytes → Bytes → Option (Bytes → Bytes))
    (signing_secret : Bytes) where
  -- What a form parser's answer makes of a request: the user of a form that names one is put into the
  -- headers.
  pub data NamesUser (req next : SlackRequest) : Option (Bytes → Bytes) → Type 0 where
    no_form : next ≡ req → NamesUser req next none
    nobody :
        {value : Bytes → Bytes}
        → value (codes "user_id") ≡ []
        → next ≡ req
        → NamesUser req next (some value)
    named :
        {value : Bytes → Bytes}
        → value (codes "user_id") ≢ []
        → next
          ≡ record req { user_id = value (codes "user_id"); user_name = value (codes "user_name") }
        → NamesUser req next (some value)

  -- The request that is handed on: only one with the content type of a form is read as a form, of its
  -- query and its body.
  pub record IsHandedOn (req next : SlackRequest) (body : Bytes) : Type 0 where
    pub of_a_form :
        req.content_type ≡ codes "application/x-www-form-urlencoded"
        → NamesUser req next (form req.query body)
    pub of_another : req.content_type ≢ codes "application/x-www-form-urlencoded" → next ≡ req

  -- A request whose body is signed and whose time stamp is recent.
  pub record IsSigned (now : ℤ) (req next : SlackRequest) : Type 0 where
    pub sent_at : ℤ
    pub body : Bytes
    pub has_timestamp : req.timestamp ≢ []
    pub has_signature : req.signature ≢ []
    pub parsed : parse_int64 req.timestamp ≡ some sent_at
    pub recent : ltb_ℤ (pos 300) (wrap64 (now -ℤ sent_at)) ≡ false
    pub readable : req.body ≡ some body
    pub signed :
        req.signature
        ≡ codes "v0="
          ++ hmac_hex signing_secret (codes "v0:" ++ (req.timestamp ++ (codes ":" ++ body)))
    pub handed_on : IsHandedOn req next body

  of_form-NamesUser :
      (parsed : Option (Bytes → Bytes)) (req : SlackRequest)
      → NamesUser req (of_form hmac_hex form signing_secret parsed req) parsed
  of_form-NamesUser none req = no_form refl
  of_form-NamesUser (some value) req = elim (Bool-cases (is_nil (value (codes "user_id")))) [
    | inl e ↦ rw e (nobody ((is_nil_yes (value (codes "user_id"))).0 e) refl)
    | inr e ↦ rw e (named ((is_nil_no (value (codes "user_id"))).0 e) refl)
  ]

  NamesUser-of_form :
      (parsed : Option (Bytes → Bytes)) (req next : SlackRequest)
      → NamesUser req next parsed
      → next ≡ of_form hmac_hex form signing_secret parsed req
  NamesUser-of_form none req next (no_form e) = e
  NamesUser-of_form (some value) req next (nobody n e) = rw n e
  NamesUser-of_form (some value) req next (named n e) =
      rw ((is_nil_no (value (codes "user_id"))).1 n) e

  with_form_user-IsHandedOn :
      (body : Bytes) (req : SlackRequest)
      → IsHandedOn req (with_form_user hmac_hex form signing_secret body req) body
  unfolding with_form_user
  with_form_user-IsHandedOn body req = record {
    of_a_form = λ c.
        rw ((str_eq_iff _ _).1 c, with_form_user) (of_form-NamesUser (form req.query body) req);
    of_another = λ n. rw (str_eq-false _ _ n, with_form_user) refl;
  }

  IsHandedOn-with_form_user :
      (body : Bytes) (req next : SlackRequest)
      → IsHandedOn req next body
      → next ≡ with_form_user hmac_hex form signing_secret body req
  unfolding with_form_user
  IsHandedOn-with_form_user body req next h =
      elim (Bool-cases (str_eq req.content_type (codes "application/x-www-form-urlencoded"))) [
        | inl e ↦
            rw (e, with_form_user)
              (NamesUser-of_form (form req.query body) req next
                (h.of_a_form ((str_eq_iff _ _).0 e)))
        | inr e ↦ rw (e, with_form_user) (h.of_another (λ c. absurd (cc ((str_eq_iff _ _).1 c, e))))
      ]

  IsSigned-passed :
      (now : ℤ) (req next : SlackRequest)
      → IsSigned now req next
      → verify_request hmac_hex form signing_secret now req ≡ passed next
  unfolding verify_request verify_body computed_signature age
  IsSigned-passed now req next s = rw (
    there_both req.timestamp req.signature s.has_timestamp s.has_signature,
    s.parsed,
    verify_request,
    s.recent,
    s.readable,
    verify_body,
    (str_eq_iff req.signature
          (computed_signature hmac_hex form signing_secret req.timestamp s.body)).1
        s.signed,
    IsHandedOn-with_form_user s.body req next s.handed_on,
  )

  verify_body-IsSigned :
      (now sent_at : ℤ) (req next : SlackRequest)
      → is_nil req.timestamp || is_nil req.signature ≡ false
      → parse_int64 req.timestamp ≡ some sent_at
      → ltb_ℤ (pos 300) (age now sent_at) ≡ false
      → verify_body hmac_hex form signing_secret req ≡ passed next
      → IsSigned now req next
  unfolding verify_body computed_signature age
  verify_body-IsSigned now sent_at req next p t r h = elim (Option-cases req.body) [
    | inl b ↦ absurd (cc (rw (b, verify_body) at h))
    | inr (body, b) ↦
        elim (Bool-cases (
          str_eq req.signature
            (computed_signature hmac_hex form signing_secret req.timestamp body))) [
              | inr e ↦ absurd (cc (rw (b, e, verify_body) at h))
              | inl e ↦ record {
                sent_at = sent_at;
                body = body;
                has_timestamp = (both_there req.timestamp req.signature p).0;
                has_signature = (both_there req.timestamp req.signature p).1;
                parsed = t;
                recent = r;
                readable = b;
                signed = (str_eq_iff _ _).0 e;
                handed_on =
                    let made : with_form_user hmac_hex form signing_secret body req ≡ next =
                      cc (rw (b, e, verify_body) at h) in
                    rw made at (with_form_user-IsHandedOn body req);
              }
            ]
  ]

  passed-IsSigned :
      (now : ℤ) (req next : SlackRequest)
      → verify_request hmac_hex form signing_secret now req ≡ passed next
      → IsSigned now req next
  unfolding verify_request
  passed-IsSigned now req next h =
      elim (Bool-cases (is_nil req.timestamp || is_nil req.signature)) [
        | inl p ↦ absurd (cc (rw (p, verify_request) at h))
        | inr p ↦ elim (Option-cases (parse_int64 req.timestamp)) [
          | inl t ↦ absurd (cc (rw (p, t, verify_request) at h))
          | inr (sent_at, t) ↦ elim (Bool-cases (ltb_ℤ (pos 300) (age now sent_at))) [
            | inl r ↦ absurd (cc (rw (p, t, r, verify_request) at h))
            | inr r ↦
                verify_body-IsSigned now sent_at req next p t r (rw (p, t, r, verify_request) at h)
          ]
        ]
      ]

-- VerifyRequest hands a request on, as a given request, exactly if both headers are there, the time stamp
-- is an int64 at most 300 seconds in the past (the difference taken in int64, any time in the future
-- included), the body can be read and the signature is `v0=` and the digest of `v0:`, the time stamp, `:`
-- and the body; the request handed on has the user id and the name of its form where its content type is
-- that of a form and the form of its query and body parses and names a user, and is unchanged otherwise.
pub verify_request_iff :
    (hmac_hex : Bytes → Bytes → Bytes) (form : Bytes → Bytes → Option (Bytes → Bytes))
    (signing_secret : Bytes) (now : ℤ) (req next : SlackRequest)
    → (verify_request hmac_hex form signing_secret now req ≡ passed next)
      ↔ IsSigned hmac_hex form signing_secret now req next
verify_request_iff hmac_hex form signing_secret now req next = (
  passed-IsSigned hmac_hex form signing_secret now req next,
  IsSigned-passed hmac_hex form signing_secret now req next,
)
