-- ===== src/Webhook/Validation/Shapes.antt =====
-- That the regular expressions of pkg/webhook/validation.go have the texts of the shapes in Rules.
use jit_bot.Base.{
  ℕ, zero, suc, ◌≡◌, ◌≢◌, ◌≤◌, refl, ap, inl, inr, ◌↔◌, Bool, true, [], ◌∷◌, ◌++◌, ◌||◌, Bytes, All,
  All-append, length, arith, is_lower, is_upper, is_digit,
}
use jit_bot.Webhook.Regex.{
  Regex, cls, cat, star, opt, plus, times, chr, account_regex, region_regex, namespace_regex,
  team_regex, user_id_regex, email_regex, is_name_end, is_name_byte, is_alpha, is_domain_byte,
  is_local_byte,
}
use jit_bot.Webhook.Regex.Language.{Lang, done, more}
use jit_bot.Webhook.Validation.Rules.{
  IsAccount, IsUserId, IsRegion, IsNameTail, IsNamespace, IsTeam, IsEmail,
}

-- A class that is one byte, and what follows it.
chr_sound :
    (k : ℕ) (q : Regex) (u : Bytes)
    → Lang (cat (chr k) q) u
    → (t : Bytes) × ((u ≡ k ∷ t) × Lang q t)
chr_sound k q u (s, t, e, (c, es, same), h) =
    let ck : c ≡ k = ground (arith, same) in (t, (cc (e, es, ck), h))

chr_complete : (k : ℕ) (q : Regex) (u t : Bytes) → u ≡ k ∷ t → Lang q t → Lang (cat (chr k) q) u
chr_complete k q u t e h = (k ∷ [], t, e, (k, refl, ground arith), h)

module _ (p : ℕ → Bool) where
  abbrev Of : Bytes → Type 0
  Of u = All (λ c. p c ≡ true) u

  cls_sound :
      (q : Regex) (u : Bytes)
      → Lang (cat (cls p) q) u
      → (c : ℕ) × (t : Bytes) × ((u ≡ c ∷ t) × (p c ≡ true) × Lang q t)
  cls_sound q u (s, t, e, (c, es, pc), h) = (c, t, (cc (e, es), pc, h))

  cls_complete :
      (q : Regex) (c : ℕ) (u t : Bytes) → u ≡ c ∷ t → p c ≡ true → Lang q t → Lang (cat (cls p) q) u
  cls_complete q c u t e pc h = (c ∷ [], t, e, (c, refl, pc), h)

  times_sound : (n : ℕ) (u : Bytes) → Lang (times n (cls p)) u → (length u ≡ n) × Of u
  times_sound zero u h = rw h (refl, tt)
  times_sound (suc n) u h =
      let (c, t, (e, pc, ht)) = cls_sound (times n (cls p)) u h in
      let (l, a) = times_sound n t ht in rw e (ap suc l, (pc, a))

  times_complete : (n : ℕ) (u : Bytes) → length u ≡ n → Of u → Lang (times n (cls p)) u
  times_complete zero [] l a = refl
  times_complete zero (c ∷ u) l a = cc l
  times_complete (suc n) [] l a = cc l
  times_complete (suc n) (c ∷ u) l (pc, a) =
      cls_complete (times n (cls p)) c (c ∷ u) u refl pc (times_complete n u (omega arith) a)

  star_sound : (u : Bytes) → Lang (star (cls p)) u → Of u
  star_sound u done = tt
  star_sound u (more c s t (d, e, pd) h eu) =
      let one : c ≡ d = ground (arith, e) in
      let none_left : s ≡ [] = ground (arith, e) in rw (eu, none_left) ((rw one pd, star_sound t h))

  star_complete : (u : Bytes) → Of u → Lang (star (cls p)) u
  star_complete [] a = done
  star_complete (c ∷ u) (pc, a) = more c [] u (c, refl, pc) (star_complete u a) refl

  plus_sound : (u : Bytes) → Lang (plus (cls p)) u → (u ≢ []) × Of u
  plus_sound u h =
      let (c, t, (e, pc, ht)) = cls_sound (star (cls p)) u h in
      rw e (λ no. cc, (pc, star_sound t ht))

  plus_complete : (u : Bytes) → u ≢ [] → Of u → Lang (plus (cls p)) u
  plus_complete [] ne a = absurd (ne refl)
  plus_complete (c ∷ u) ne (pc, a) =
      cls_complete (star (cls p)) c (c ∷ u) u refl pc (star_complete u a)

  two_or_more_sound :
      (u : Bytes) → Lang (cat (times 2 (cls p)) (star (cls p))) u → (2 ≤ length u) × Of u
  two_or_more_sound u (s, t, e, h2, h) =
      let (l, a) = times_sound 2 s h2 in
      rw e (two_first s t l, All-append (λ c. p c ≡ true) s t a (star_sound t h))
    where
      two_first : (s t : Bytes) → length s ≡ 2 → 2 ≤ length (s ++ t)
      two_first [] t l = omega arith
      two_first (a ∷ []) t l = omega arith
      two_first (a ∷ b ∷ s) t l = omega arith

  two_or_more_complete :
      (u : Bytes) → 2 ≤ length u → Of u → Lang (cat (times 2 (cls p)) (star (cls p))) u
  two_or_more_complete [] l a = absurd (omega arith)
  two_or_more_complete (b ∷ []) l a = absurd (omega arith)
  two_or_more_complete (b ∷ c ∷ u) l (pb, (pc, a)) =
      (b ∷ c ∷ [], u, refl, times_complete 2 (b ∷ c ∷ []) refl (pb, (pc, tt)), star_complete u a)

pub account_regex-IsAccount : (s : Bytes) → Lang account_regex s ↔ IsAccount s
account_regex-IsAccount s = (
  λ h. let (l, a) = times_sound is_digit 12 s h in record { twelve = l; digits = a },
  λ r. times_complete is_digit 12 s r.twelve r.digits,
)

abbrev is_id_byte : ℕ → Bool
is_id_byte c = is_upper c || is_digit c

pub user_id_regex-IsUserId : (s : Bytes) → Lang user_id_regex s ↔ IsUserId s
user_id_regex-IsUserId s = (
  λ h.
      let (t, (e, ht)) = chr_sound b'U' (times 10 (cls is_id_byte)) s h in
      let (l, a) = times_sound is_id_byte 10 t ht in
      record { rest = t; begins = e; ten = l; of_id_bytes = a },
  λ r.
      chr_complete b'U' (times 10 (cls is_id_byte)) s r.rest r.begins
        (times_complete is_id_byte 10 r.rest r.ten r.of_id_bytes),
)

-- What follows the letters of the area.
abbrev number_part : Regex
number_part = times 1 (cls is_digit)

abbrev word_part : Regex
word_part = cat (plus (cls is_lower)) (cat (chr b'-') number_part)

Lang-IsRegion : (s : Bytes) → Lang region_regex s → IsRegion s
Lang-IsRegion s (area, t1, e1, ha, h1) =
    let (t2, (e2, (word, t3, e3, hw, h3))) = chr_sound b'-' word_part t1 h1 in
    let (number, (e4, hn)) = chr_sound b'-' number_part t3 h3 in
    let (two, area_lower) = times_sound is_lower 2 area ha in
    let (some_word, word_lower) = plus_sound is_lower word hw in
    let (one, digit) = times_sound is_digit 1 number hn in
    record {
      area = area;
      word = word;
      number = number;
      spelled = cc (e1, e2, e3, e4);
      two = two;
      area_lower = area_lower;
      some_word = some_word;
      word_lower = word_lower;
      one = one;
      number_digit = digit;
    }

region_complete : (s : Bytes) → IsRegion s → Lang region_regex s
region_complete s r = (
  r.area,
  b'-' ∷ (r.word ++ (b'-' ∷ r.number)),
  r.spelled,
  times_complete is_lower 2 r.area r.two r.area_lower,
  chr_complete b'-' word_part _ (r.word ++ (b'-' ∷ r.number)) refl (
    r.word,
    b'-' ∷ r.number,
    refl,
    plus_complete is_lower r.word r.some_word r.word_lower,
    chr_complete b'-' number_part _ r.number refl
        (times_complete is_digit 1 r.number r.one r.number_digit),
  ),
)

pub region_regex-IsRegion : (s : Bytes) → Lang region_regex s ↔ IsRegion s
region_regex-IsRegion s = (Lang-IsRegion s, region_complete s)

abbrev tail_part : Regex
tail_part = cat (star (cls is_name_byte)) (cls is_name_end)

Lang-IsNameTail : (s : Bytes) → Lang tail_part s → IsNameTail s
Lang-IsNameTail s (middle, t, e, hm, (d, ed, pd)) = record {
  middle = middle;
  last = d;
  spelled = cc (e, ed);
  of_name_bytes = star_sound is_name_byte middle hm;
  may_end = pd;
}

tail_complete : (s : Bytes) → IsNameTail s → Lang tail_part s
tail_complete s r = (
  r.middle,
  r.last ∷ [],
  r.spelled,
  star_complete is_name_byte r.middle r.of_name_bytes,
  (r.last, refl, r.may_end),
)

Lang-IsNamespace : (s : Bytes) → Lang namespace_regex s → IsNamespace s
Lang-IsNamespace s h =
    let (c, t, (e, pc, ht)) = cls_sound is_name_end (opt tail_part) s h in
    record {
      first = c;
      rest = t;
      spelled = e;
      may_begin = pc;
      goes_on = elim ht [ inl a ↦ inl (Lang-IsNameTail t a) | inr b ↦ inr b ];
    }

namespace_complete : (s : Bytes) → IsNamespace s → Lang namespace_regex s
namespace_complete s r =
    cls_complete is_name_end (opt tail_part) r.first s r.rest r.spelled r.may_begin
      (elim r.goes_on [ inl a ↦ inl (tail_complete r.rest a) | inr b ↦ inr b ])

pub namespace_regex-IsNamespace : (s : Bytes) → Lang namespace_regex s ↔ IsNamespace s
namespace_regex-IsNamespace s = (Lang-IsNamespace s, namespace_complete s)

pub team_regex-IsTeam : (s : Bytes) → Lang team_regex s ↔ IsTeam s
team_regex-IsTeam s = (
  λ h.
      let (c, t, (e, pc, ht)) = cls_sound is_lower tail_part s h in
      record { first = c; rest = t; spelled = e; lower_first = pc; goes_on = Lang-IsNameTail t ht },
  λ r.
      cls_complete is_lower tail_part r.first s r.rest r.spelled r.lower_first
        (tail_complete r.rest r.goes_on),
)

-- What follows the local part of an address.
abbrev top_part : Regex
top_part = cat (times 2 (cls is_alpha)) (star (cls is_alpha))

abbrev domain_part : Regex
domain_part = cat (plus (cls is_domain_byte)) (cat (chr b'.') top_part)

Lang-IsEmail : (s : Bytes) → Lang email_regex s → IsEmail s
Lang-IsEmail s (local, t1, e1, hl, h1) =
    let (t2, (e2, (domain, t3, e3, hd, h3))) = chr_sound b'@' domain_part t1 h1 in
    let (top, (e4, ht)) = chr_sound b'.' top_part t3 h3 in
    let (some_local, local_bytes) = plus_sound is_local_byte local hl in
    let (some_domain, domain_bytes) = plus_sound is_domain_byte domain hd in
    let (two, letters) = two_or_more_sound is_alpha top ht in
    record {
      local = local;
      domain = domain;
      top = top;
      spelled = cc (e1, e2, e3, e4);
      some_local = some_local;
      local_bytes = local_bytes;
      some_domain = some_domain;
      domain_bytes = domain_bytes;
      two_letters = two;
      top_letters = letters;
    }

email_complete : (s : Bytes) → IsEmail s → Lang email_regex s
email_complete s r = (
  r.local,
  b'@' ∷ (r.domain ++ (b'.' ∷ r.top)),
  r.spelled,
  plus_complete is_local_byte r.local r.some_local r.local_bytes,
  chr_complete b'@' domain_part _ (r.domain ++ (b'.' ∷ r.top)) refl (
    r.domain,
    b'.' ∷ r.top,
    refl,
    plus_complete is_domain_byte r.domain r.some_domain r.domain_bytes,
    chr_complete b'.' top_part _ r.top refl
        (two_or_more_complete is_alpha r.top r.two_letters r.top_letters),
  ),
)

pub email_regex-IsEmail : (s : Bytes) → Lang email_regex s ↔ IsEmail s
email_regex-IsEmail s = (Lang-IsEmail s, email_complete s)
