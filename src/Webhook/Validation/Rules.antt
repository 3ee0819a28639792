-- ===== src/Webhook/Validation/Rules.antt =====
-- What a request must be for the validating webhook (pkg/webhook/validation.go), described without
-- the checks: shapes of texts with their ranges of bytes, lists of words, and lengths of time.
use jit_bot.Base.{
  ℕ, ◌+◌, ◌*◌, ◌-◌, ◌%◌, ◌<◌, ◌≤◌, ◌≡◌, ◌≢◌, ◌⊎◌, Bool, true, ◌&&◌, ◌||◌, List, [], ◌∷◌, ◌++◌,
  Bytes, codes, All, to_lower, trim_space, length, leb, ◌==◌, if◌then◌else◌,
}
use jit_bot.Controller.Types.{TargetCluster, JitAccessRequestSpec}

abbrev pub between : ℕ → ℕ → ℕ → Bool
between low high c = leb low c && leb c high

abbrev pub IsDigit : ℕ → Type 0
IsDigit c = between b'0' b'9' c ≡ true

abbrev pub IsLower : ℕ → Type 0
IsLower c = between b'a' b'z' c ≡ true

abbrev pub IsNameEnd : ℕ → Type 0
IsNameEnd c = between b'a' b'z' c || between b'0' b'9' c ≡ true

abbrev pub IsNameByte : ℕ → Type 0
IsNameByte c = (between b'a' b'z' c || between b'0' b'9' c) || c == b'-' ≡ true

abbrev pub IsIdByte : ℕ → Type 0
IsIdByte c = between b'A' b'Z' c || between b'0' b'9' c ≡ true

abbrev pub IsLetter : ℕ → Type 0
IsLetter c = between b'a' b'z' c || between b'A' b'Z' c ≡ true

abbrev pub IsDomainByte : ℕ → Type 0
IsDomainByte c =
    (between b'a' b'z' c || between b'A' b'Z' c) || between b'0' b'9' c || c == b'.' || c == b'-'
    ≡ true

abbrev pub IsLocalByte : ℕ → Type 0
IsLocalByte c =
    (between b'a' b'z' c || between b'A' b'Z' c)
      || between b'0' b'9' c
      || c == b'.'
      || c == b'_'
      || c == b'%'
      || c == b'+'
      || c == b'-'
    ≡ true

-- Twelve digits.
pub record IsAccount (s : Bytes) : Type 0 where
  pub twelve : length s ≡ 12
  pub digits : All IsDigit s

-- `U` and ten capital letters or digits.
pub record IsUserId (s : Bytes) : Type 0 where
  pub rest : Bytes
  pub begins : s ≡ b'U' ∷ rest
  pub ten : length rest ≡ 10
  pub of_id_bytes : All IsIdByte rest

-- Two letters, a word and a digit, with dashes between, as in us-east-1.
pub record IsRegion (s : Bytes) : Type 0 where
  pub area : Bytes
  pub word : Bytes
  pub number : Bytes
  pub spelled : s ≡ area ++ (b'-' ∷ (word ++ (b'-' ∷ number)))
  pub two : length area ≡ 2
  pub area_lower : All IsLower area
  pub some_word : word ≢ []
  pub word_lower : All IsLower word
  pub one : length number ≡ 1
  pub number_digit : All IsDigit number

-- What follows the first byte of a name: any bytes of names, and one that may end it.
pub record IsNameTail (s : Bytes) : Type 0 where
  pub middle : Bytes
  pub last : ℕ
  pub spelled : s ≡ middle ++ (last ∷ [])
  pub of_name_bytes : All IsNameByte middle
  pub may_end : IsNameEnd last

pub record IsNamespace (s : Bytes) : Type 0 where
  pub first : ℕ
  pub rest : Bytes
  pub spelled : s ≡ first ∷ rest
  pub may_begin : IsNameEnd first
  pub goes_on : IsNameTail rest ⊎ (rest ≡ [])

pub record IsTeam (s : Bytes) : Type 0 where
  pub first : ℕ
  pub rest : Bytes
  pub spelled : s ≡ first ∷ rest
  pub lower_first : IsLower first
  pub goes_on : IsNameTail rest

-- A local part, `@`, a domain, a dot and two or more letters.
pub record IsEmail (s : Bytes) : Type 0 where
  pub local : Bytes
  pub domain : Bytes
  pub top : Bytes
  pub spelled : s ≡ local ++ (b'@' ∷ (domain ++ (b'.' ∷ top)))
  pub some_local : local ≢ []
  pub local_bytes : All IsLocalByte local
  pub some_domain : domain ≢ []
  pub domain_bytes : All IsDomainByte domain
  pub two_letters : 2 ≤ length top
  pub top_letters : All IsLetter top

-- A text is one of a list.
abbrev pub OneOf : List Bytes → Bytes → Type 0
OneOf [] s = ⊥
OneOf (x ∷ xs) s = (x ≡ s) ⊎ OneOf xs s

-- No text of a list stands in it again.
abbrev pub AllDiffer : List Bytes → Type 0
AllDiffer [] = Unit
AllDiffer (x ∷ xs) = (¬ (OneOf xs x)) × AllDiffer xs

-- A text stands in another one.
abbrev pub OccursIn : Bytes → Bytes → Type 0
OccursIn text p = (around : Bytes × Bytes) × (text ≡ around.0 ++ (p ++ around.1))

abbrev pub IsPermission : Bytes → Type 0
IsPermission = OneOf (
    codes "view"
    ∷ codes "edit"
    ∷ codes "admin"
    ∷ codes "cluster-admin"
    ∷ codes "debug"
    ∷ codes "logs"
    ∷ codes "exec"
    ∷ codes "port-forward"
    ∷ [])

-- The reasons that say nothing.
abbrev pub empty_words : List Bytes
empty_words =
    codes "test"
    ∷ codes "testing"
    ∷ codes "debug"
    ∷ codes "debugging"
    ∷ codes "temp"
    ∷ codes "temporary"
    ∷ codes "asdf"
    ∷ codes "xxx"
    ∷ codes "..."
    ∷ codes "n/a"
    ∷ []

abbrev pub empty_phrases : List Bytes
empty_phrases =
    codes "need access"
    ∷ codes "want access"
    ∷ codes "need to debug"
    ∷ codes "want to debug"
    ∷ codes "need to check"
    ∷ codes "want to check"
    ∷ codes "testing something"
    ∷ codes "trying to"
    ∷ []

-- Permissions: at least one, all known, and `cluster-admin` only by itself.
pub record PermissionsFit (ps : List Bytes) : Type 0 where
  pub some_permission : 1 ≤ length ps
  pub all_known : All IsPermission ps
  pub no_escalation : OneOf ps (codes "cluster-admin") → length ps ≤ 1

pub record ClusterFits (c : TargetCluster) : Type 0 where
  pub named : c.name ≢ []
  pub account : IsAccount c.aws_account
  pub region : IsRegion c.region

pub record ReasonFits (reason : Bytes) (ps : List Bytes) : Type 0 where
  pub not_blank : trim_space reason ≢ []
  pub long_enough : 10 ≤ length reason
  pub short_enough : length reason ≤ 500
  pub not_generic : ¬ (OneOf empty_words (to_lower reason))
  pub no_phrase : All (λ p. ¬ (OccursIn (to_lower reason) p)) empty_phrases
  pub justified : OneOf ps (codes "cluster-admin") → 50 ≤ length reason

-- A text of eleven bytes that begins with `U`, or the name of a team.
abbrev pub IsApprover : Bytes → Type 0
IsApprover a = ((rest : Bytes) × ((a ≡ b'U' ∷ rest) × (length rest ≡ 10))) ⊎ IsTeam a

pub record NamespacesFit (ns ps : List Bytes) : Type 0 where
  pub names : All IsNamespace ns
  pub no_twice : AllDiffer ns
  pub not_cluster_wide : OneOf ps (codes "cluster-admin") → length ns ≡ 0

-- The number that a run of digits behind a number spells.
abbrev pub decimal : ℕ → Bytes → ℕ
decimal n [] = n
decimal n (c ∷ s) = decimal (n * 10 + (c - b'0')) s

-- A number and the byte of a unit.
pub record IsPart (m : Bytes × ℕ) : Type 0 where
  pub some_digits : m.0 ≢ []
  pub digits : All IsDigit m.0
  pub known_unit : m.1 == b'd' || m.1 == b'h' || m.1 == b'm' || m.1 == b's' ≡ true
  pub in_int64 : decimal 0 m.0 < 9223372036854775808

abbrev pub spell : List (Bytes × ℕ) → Bytes
spell [] = []
spell ((run, unit) ∷ rest) = run ++ (unit ∷ spell rest)

-- A unit in nanoseconds.
abbrev pub unit_nanoseconds : ℕ → ℕ
unit_nanoseconds c =
    if c == b'd'
    then 86400000000000
    else if c == b'h'
    then 3600000000000
    else if c == b'm'
    then 60000000000
    else 1000000000

abbrev pub nanoseconds : List (Bytes × ℕ) → ℕ
nanoseconds [] = 0
nanoseconds ((run, unit) ∷ rest) = decimal 0 run * unit_nanoseconds unit + nanoseconds rest

-- Numbers with units, one behind the other, from 15 minutes to seven days, modulo 2 ^ 64.
pub record IsDuration (s : Bytes) : Type 0 where
  pub parts : List (Bytes × ℕ)
  pub some_part : parts ≢ []
  pub spelled : s ≡ spell parts
  pub well_formed : All IsPart parts
  pub long_enough : 900000000000 ≤ nanoseconds parts % 18446744073709551616
  pub short_enough : nanoseconds parts % 18446744073709551616 ≤ 604800000000000

pub record IsAdmissible (spec : JitAccessRequestSpec) : Type 0 where
  pub user : IsUserId spec.user_id
  pub email : IsEmail spec.user_email
  pub duration : IsDuration spec.duration
  pub permissions : PermissionsFit spec.permissions
  pub cluster : ClusterFits spec.target_cluster
  pub reason : ReasonFits spec.reason spec.permissions
  pub approvers : All IsApprover spec.approvers × AllDiffer spec.approvers
  pub namespaces : NamespacesFit spec.namespaces spec.permissions
