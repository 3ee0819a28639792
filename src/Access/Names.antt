-- ===== src/Access/Names.antt =====
-- That the name of a session and the ARN of its principal tell the time of the session
-- (GenerateJITSessionName of pkg/aws/sts.go, GrantAccess of pkg/kubernetes/access.go).
use mathlib.Core.List.{append_cancel_left}
use jit_bot.Base.{◌≡◌, ◌++◌, Bytes, codes}
use jit_bot.Aws.{entry_eq, generate_jit_session_name}
use jit_bot.Access.{principal_arn, extract_role_name}

-- The five pieces of a text: only the last one varies.
append_inj_5 :
    (a b c d : Bytes) {s t : Bytes}
    → a ++ (b ++ (c ++ (d ++ s))) ≡ a ++ (b ++ (c ++ (d ++ t)))
    → s ≡ t
append_inj_5 a b c d h =
    append_cancel_left d _ _
      (append_cancel_left c _ _ (append_cancel_left b _ _ (append_cancel_left a _ _ h)))

-- Two sessions of one user on one cluster have one name at one time only.
pub session_name_inj :
    (user cluster : Bytes) {t u : Bytes}
    → generate_jit_session_name t user cluster ≡ generate_jit_session_name u user cluster
    → t ≡ u
unfolding generate_jit_session_name
session_name_inj user cluster h =
    append_cancel_left (codes "-") _ _ (append_inj_5 (codes "jit-") user (codes "-") cluster h)

pub principal_arn_inj :
    (account role : Bytes) {s t : Bytes}
    → principal_arn account role s ≡ principal_arn account role t
    → s ≡ t
unfolding principal_arn
principal_arn_inj account role h = append_cancel_left (codes "/") _ _ (
    append_inj_5 (codes "arn:aws:sts::") account (codes ":assumed-role/") (extract_role_name role)
      h)
