-- ===== src/Webhook/Validation/Words.antt =====
-- The tests on lists of words and on texts of pkg/webhook/validation.go, by what they look for.
use jit_bot.Base.{
  ◌≡◌, ◌↔◌, refl, ap, inl, inr, true, false, List, [], ◌∷◌, ◌++◌, arith, Bytes, All, Bool-cases,
  has_prefix, contains_text, str_eq, str_eq_iff, ||-true,
}
use jit_bot.Webhook.Validation.{contains, holds_phrase}
use jit_bot.Webhook.Validation.Rules.{OneOf, OccursIn}

contains-OneOf : (xs : List Bytes) (s : Bytes) → contains xs s ≡ true → OneOf xs s
unfolding contains
contains-OneOf [] s h = cc
contains-OneOf (x ∷ xs) s h = elim (||-true (str_eq x s) (contains xs s) h) [
  | inl e ↦ inl ((str_eq_iff x s).0 e)
  | inr e ↦ inr (contains-OneOf xs s e)
]

OneOf-contains : (xs : List Bytes) (s : Bytes) → OneOf xs s → contains xs s ≡ true
unfolding contains
OneOf-contains [] s h = elim h [ ]
OneOf-contains (x ∷ xs) s (inl e) = rw ((str_eq_iff x s).1 e, contains)
OneOf-contains (x ∷ xs) s (inr h) = let r = OneOf-contains xs s h in ground arith

-- The loop finds exactly the texts of the list.
pub contains_iff : (xs : List Bytes) (s : Bytes) → (contains xs s ≡ true) ↔ OneOf xs s
contains_iff xs s = (contains-OneOf xs s, OneOf-contains xs s)

pub contains_not : (xs : List Bytes) (s : Bytes) → (contains xs s ≡ false) ↔ (¬ (OneOf xs s))
contains_not xs s = (
  λ h o. cc (h, OneOf-contains xs s o),
  λ n. elim (Bool-cases (contains xs s)) [ inl e ↦ absurd (n (contains-OneOf xs s e)) | inr e ↦ e ],
)

has_prefix-append : (p s : Bytes) → has_prefix p s ≡ true → (post : Bytes) × (s ≡ p ++ post)
unfolding has_prefix
has_prefix-append [] s h = (s, refl)
has_prefix-append (c ∷ p) [] h = cc
has_prefix-append (c ∷ p) (d ∷ s) h =
    let (post, e) = has_prefix-append p s (ground arith) in
    let same : d ≡ c = ground arith in (post, cc (same, e))

pub append-has_prefix : (p post : Bytes) → has_prefix p (p ++ post) ≡ true
unfolding has_prefix
append-has_prefix [] post = refl
append-has_prefix (c ∷ p) post = ground (arith, append-has_prefix p post)

contains_text-OccursIn : (p text : Bytes) → contains_text p text ≡ true → OccursIn text p
unfolding contains_text
contains_text-OccursIn p [] h = let (post, e) = has_prefix-append p [] h in (([], post), e)
contains_text-OccursIn p (c ∷ s) h = elim (||-true (has_prefix p (c ∷ s)) (contains_text p s) h) [
  | inl here ↦ let (post, e) = has_prefix-append p (c ∷ s) here in (([], post), e)
  | inr later ↦
      let (around, e) = contains_text-OccursIn p s later in
      ((c ∷ around.0, around.1), ap (λ (l : Bytes). c ∷ l) e)
]

here_contains_text : (p text : Bytes) → has_prefix p text ≡ true → contains_text p text ≡ true
unfolding contains_text
here_contains_text p [] h = h
here_contains_text p (c ∷ s) h = ground arith

append-contains_text : (p pre post : Bytes) → contains_text p (pre ++ (p ++ post)) ≡ true
unfolding contains_text
append-contains_text p [] post = here_contains_text p (p ++ post) (append-has_prefix p post)
append-contains_text p (c ∷ pre) post = let r = append-contains_text p pre post in ground arith

pub holds_phrase-none :
    (ps : List Bytes) (text : Bytes)
    → holds_phrase ps text ≡ false
    → All (λ p. ¬ (OccursIn text p)) ps
unfolding holds_phrase
holds_phrase-none [] text h = tt
holds_phrase-none (p ∷ ps) text h =
    let absent : contains_text p text ≡ false = ground arith in
    (
      λ (around, e). cc (rw e at absent, append-contains_text p around.0 around.1),
      holds_phrase-none ps text (ground arith),
    )

pub none-holds_phrase :
    (ps : List Bytes) (text : Bytes)
    → All (λ p. ¬ (OccursIn text p)) ps
    → holds_phrase ps text ≡ false
unfolding holds_phrase
none-holds_phrase [] text h = refl
none-holds_phrase (p ∷ ps) text (n, h) = elim (Bool-cases (contains_text p text)) [
  | inl e ↦ absurd (n (contains_text-OccursIn p text e))
  | inr e ↦ rw (e, holds_phrase) (none-holds_phrase ps text h)
]
