-- ===== src/Cleanup/Sessions.antt =====
-- That extractSessionInfo of pkg/kubernetes/cleanup.go reads what GenerateJITSessionName of
-- pkg/aws/sts.go and GrantAccess of pkg/kubernetes/access.go wrote.
use jit_bot.Base.{
  ℕ, ◌≡◌, refl, sym, ap, ◌∙◌, inl, inr, Bool, true, false, not, ◌&&◌, List, [], ◌∷◌, ◌++◌, some,
  Bytes, codes, contains_text, has_prefix, last_or, join, ◌==◌, All, All-append, append_assoc,
  append-nil, arith, Bool-cases,
}
use jit_bot.Aws.{generate_jit_session_name}
use jit_bot.Access.{split, extract_role_name, principal_arn}
use jit_bot.Cleanup.{session_of, extract_session_info}

-- A text without a byte.
abbrev pub Lacks : ℕ → Bytes → Type 0
Lacks sep = All (λ c. (c == sep) ≡ false)

abbrev lacks_byte : ℕ → Bytes → Bool
lacks_byte sep [] = true
lacks_byte sep (c ∷ s) = not (c == sep) && lacks_byte sep s

-- The test for a text that is given.
pub lacks_byte-Lacks : (sep : ℕ) (s : Bytes) → lacks_byte sep s ≡ true → Lacks sep s
lacks_byte-Lacks sep [] h = tt
lacks_byte-Lacks sep (c ∷ s) h =
    let this : (c == sep) ≡ false = ground arith in
    let rest : lacks_byte sep s ≡ true = ground arith in (this, lacks_byte-Lacks sep s rest)

split-Lacks : (sep : ℕ) (cur a : Bytes) → Lacks sep a → split sep cur a ≡ (cur ++ a) ∷ []
unfolding split
split-Lacks sep cur [] h = ap (λ (s : Bytes). s ∷ []) (sym (append-nil cur))
split-Lacks sep cur (c ∷ a) (h, t) =
    rw (h, split)
      (split-Lacks sep (cur ++ c ∷ []) a t
        ∙ ap (λ (s : Bytes). s ∷ []) (append_assoc cur (c ∷ []) a))

-- The first piece of a text.
split_first :
    (sep : ℕ) (cur a s : Bytes)
    → Lacks sep a
    → (sep == sep) ≡ true
    → split sep cur (a ++ sep ∷ s) ≡ (cur ++ a) ∷ split sep [] s
unfolding split
split_first sep cur [] s h e =
    rw (e, split) (ap (λ (t : Bytes). t ∷ split sep [] s) (sym (append-nil cur)))
split_first sep cur (c ∷ a) s (h, t) e =
    rw (h, split)
      (split_first sep (cur ++ c ∷ []) a s t e
        ∙ ap (λ (u : Bytes). u ∷ split sep [] s) (append_assoc cur (c ∷ []) a))

-- No piece contains the separator.
split-All : (sep : ℕ) (cur s : Bytes) → Lacks sep cur → All (Lacks sep) (split sep cur s)
unfolding split
split-All sep cur [] h = (h, tt)
split-All sep cur (c ∷ s) h = elim (Bool-cases (c == sep)) [
  | inl e ↦ rw (e, split) (h, split-All sep [] s tt)
  | inr e ↦
      rw (e, split)
        (split-All sep (cur ++ c ∷ []) s
          (All-append (λ d. (d == sep) ≡ false) cur (c ∷ []) h (e, tt)))
]

last-All : (P : Bytes → Type 0) (d : Bytes) (xs : List Bytes) → P d → All P xs → P (last_or d xs)
last-All P d [] h t = h
last-All P d (x ∷ xs) h t = last-All P x xs t.0 t.1

role-Lacks : (role : Bytes) → Lacks b'/' (extract_role_name role)
unfolding extract_role_name
role-Lacks role =
    last-All (Lacks b'/') (codes "unknown") (split b'/' [] role)
      (lacks_byte-Lacks b'/' (codes "unknown") refl) (split-All b'/' [] role tt)

split_some :
    (sep : ℕ) (cur s : Bytes) → (x : Bytes) × (xs : List Bytes) × (split sep cur s ≡ x ∷ xs)
unfolding split
split_some sep cur [] = (cur, [], refl)
split_some sep cur (c ∷ s) = elim (Bool-cases (c == sep)) [
  | inl e ↦ rw (e, split) (cur, split sep [] s, refl)
  | inr e ↦ rw (e, split) (split_some sep (cur ++ c ∷ []) s)
]

same_byte : (c sep : ℕ) → (c == sep) ≡ true → c ≡ sep
same_byte c sep e = ground arith

join_cut :
    (sep : ℕ) (cur s : Bytes)
    → join (cur ∷ split sep [] s) (sep ∷ []) ≡ cur ++ sep ∷ join (split sep [] s) (sep ∷ [])
unfolding join
join_cut sep cur s =
    let (x, xs, e) = split_some sep [] s in
    rw (e, join) (append_assoc cur (sep ∷ []) (join (x ∷ xs) (sep ∷ [])))

join-split : (sep : ℕ) (cur s : Bytes) → join (split sep cur s) (sep ∷ []) ≡ cur ++ s
unfolding split join
join-split sep cur [] = sym (append-nil cur)
join-split sep cur (c ∷ s) = elim (Bool-cases (c == sep)) [
  | inl e ↦
      rw (e, split)
        (join_cut sep cur s
          ∙ (ap (λ t. cur ++ sep ∷ t) (join-split sep [] s)
              ∙ ap (λ d. cur ++ d ∷ s) (sym (same_byte c sep e))))
  | inr e ↦ rw (e, split) (join-split sep (cur ++ c ∷ []) s ∙ append_assoc cur (c ∷ []) s)
]

contains_append : (p a s : Bytes) → contains_text p s ≡ true → contains_text p (a ++ s) ≡ true
unfolding contains_text
contains_append p [] s h = h
contains_append p (c ∷ a) s h = ground (arith, contains_append p a s h)

-- The session that a name tells, whatever stands behind its third dash.
session_of-name :
    (user cluster t name : Bytes)
    → Lacks b'-' user
    → Lacks b'-' cluster
    → session_of name
        (split b'-' [] (codes "jit-" ++ (user ++ (codes "-" ++ (cluster ++ (codes "-" ++ t))))))
      ≡ some (record { session_name = name; user_id = user; cluster_id = cluster; timestamp = t })
unfolding session_of
session_of-name user cluster t name hu hc =
    let (x, xs, e) = split_some b'-' [] t in
    rw
      (
        split_first b'-' [] (codes "jit") (user ++ (codes "-" ++ (cluster ++ (codes "-" ++ t))))
            (refl, (refl, (refl, tt))) refl,
        split_first b'-' [] user (cluster ++ (codes "-" ++ t)) hu refl,
        split_first b'-' [] cluster t hc refl,
        e,
      )
      (ap
        (λ (u : Bytes).
          some
            (record { session_name = name; user_id = user; cluster_id = cluster; timestamp = u }))
        (ap (λ (l : List Bytes). join l (codes "-")) (sym e) ∙ join-split b'-' [] t))

-- The parts of an ARN whose name has no slash.
arn_parts :
    (account role name : Bytes)
    → Lacks b'/' account
    → Lacks b'/' name
    → split b'/' [] (principal_arn account role name)
      ≡ (codes "arn:aws:sts::" ++ (account ++ codes ":assumed-role"))
        ∷ extract_role_name role
        ∷ name
        ∷ []
unfolding principal_arn
arn_parts account role name ha hn =
    let tail = extract_role_name role ++ b'/' ∷ name in
    let head = codes "arn:aws:sts::" ++ (account ++ codes ":assumed-role") in
    let lacks : Lacks b'/' head =
      All-append (λ c. (c == b'/') ≡ false) (codes "arn:aws:sts::")
        (account ++ codes ":assumed-role") (lacks_byte-Lacks b'/' (codes "arn:aws:sts::") refl)
        (All-append (λ c. (c == b'/') ≡ false) account (codes ":assumed-role") ha
          (lacks_byte-Lacks b'/' (codes ":assumed-role") refl)) in
    ap (λ (s : Bytes). split b'/' [] (codes "arn:aws:sts::" ++ s))
      (sym (append_assoc account (codes ":assumed-role") (b'/' ∷ tail)))
    ∙ (split_first b'/' [] head tail lacks refl
        ∙ ap (λ (l : List Bytes). head ∷ l)
            (split_first b'/' [] (extract_role_name role) name (role-Lacks role) refl
              ∙ ap (λ (l : List Bytes). extract_role_name role ∷ l) (split-Lacks b'/' [] name hn)))

principal_contains :
    (account role name : Bytes)
    → contains_text (codes "assumed-role") (principal_arn account role name) ≡ true
unfolding principal_arn contains_text has_prefix
principal_contains account role name =
    let tail = codes "assumed-role/" ++ (extract_role_name role ++ (codes "/" ++ name)) in
    contains_append (codes "assumed-role") (codes "arn:aws:sts::") (account ++ (codes ":" ++ tail))
      (contains_append (codes "assumed-role") account (codes ":" ++ tail) refl)

-- Where the account and the generated name contain no slash, and the user and the cluster no dash,
-- extractSessionInfo reads the name, the user, the cluster and the time of the session from the ARN of its
-- principal, for every role.
pub extract_session_info-generate :
    (account role timestamp user cluster : Bytes)
    → Lacks b'/' account
    → Lacks b'/' (generate_jit_session_name timestamp user cluster)
    → Lacks b'-' user
    → Lacks b'-' cluster
    → extract_session_info
        (principal_arn account role (generate_jit_session_name timestamp user cluster))
      ≡ some (record {
        session_name = generate_jit_session_name timestamp user cluster;
        user_id = user;
        cluster_id = cluster;
        timestamp = timestamp;
      })
unfolding extract_session_info generate_jit_session_name has_prefix
extract_session_info-generate account role timestamp user cluster ha hn hu hc =
    rw
      (
        arn_parts account role (generate_jit_session_name timestamp user cluster) ha hn,
        principal_contains account role (generate_jit_session_name timestamp user cluster),
        has_prefix,
      )
      (session_of-name user cluster timestamp (generate_jit_session_name timestamp user cluster) hu
        hc)
