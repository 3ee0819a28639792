-- ===== src/Webhook/Validation/Admissible.antt =====
-- That the validating webhook (pkg/webhook/validation.go) allows exactly the admissible requests.
use jit_bot.Base.{◌≡◌, refl, ◌↔◌, Option, none, some, arith}
use jit_bot.Base.Result.{◌then_check◌}
use jit_bot.Webhook.Duration.{DurationError, validate_duration}
use jit_bot.Controller.Types.{JitAccessRequest}
use jit_bot.Webhook.Validation.{
  validate_permissions, validate_cluster, validate_reason, validate_approvers, validate_user_id,
  validate_email, validate_reason_for_permissions, validate_request, handle, allowed, as_duration,
  ValidationError,
}
use jit_bot.Webhook.Validation.Parts.{
  permissions_sound, permissions_complete, cluster_sound, cluster_complete,
  validate_user_id-IsUserId, validate_email-IsEmail, reason_sound, reason_complete,
  justification_complete, approvers_sound, approvers_complete, namespaces_sound,
  namespaces_complete,
}
use jit_bot.Webhook.Validation.Lasting.{validate_duration-IsDuration}
use jit_bot.Webhook.Validation.Rules.{IsAdmissible}

then_check-none :
    (p q : Option ValidationError) → (p then_check q ≡ none) ↔ ((p ≡ none) × (q ≡ none))
then_check-none none q = (λ h. (refl, h), λ h. h.1)
then_check-none (some e) q = (λ h. cc, λ h. cc (h.0))

as_duration-none : (d : Option DurationError) → (as_duration d ≡ none) ↔ (d ≡ none)
as_duration-none none = (λ h. refl, λ h. refl)
as_duration-none (some e) = (λ h. cc, λ h. cc)

request_sound : (req : JitAccessRequest) → validate_request req ≡ none → IsAdmissible req.spec
unfolding validate_request
request_sound req h =
    let (u, h1) = (then_check-none (validate_user_id req.spec.user_id) _).0 h in
    let (e, h2) = (then_check-none (validate_email req.spec.user_email) _).0 h1 in
    let (d, h3) = (then_check-none (as_duration (validate_duration req.spec.duration)) _).0 h2 in
    let (p, h4) = (then_check-none (validate_permissions req.spec.permissions) _).0 h3 in
    let (c, h5) = (then_check-none (validate_cluster req.spec.target_cluster) _).0 h4 in
    let (r, h6) = (then_check-none (validate_reason req.spec.reason) _).0 h5 in
    let (j, h7) =
      (then_check-none (validate_reason_for_permissions req.spec.reason req.spec.permissions) _).0
        h6 in
    let (a, n) = (then_check-none (validate_approvers req.spec.approvers) _).0 h7 in
    record {
      user = (validate_user_id-IsUserId req.spec.user_id).0 u;
      email = (validate_email-IsEmail req.spec.user_email).0 e;
      duration =
          (validate_duration-IsDuration req.spec.duration).0
            ((as_duration-none (validate_duration req.spec.duration)).0 d);
      permissions = permissions_sound req.spec.permissions p;
      cluster = cluster_sound req.spec.target_cluster c;
      reason = reason_sound req.spec.reason req.spec.permissions r j;
      approvers = approvers_sound req.spec.approvers a;
      namespaces = namespaces_sound req.spec.namespaces req.spec.permissions n;
    }

request_complete : (req : JitAccessRequest) → IsAdmissible req.spec → validate_request req ≡ none
unfolding validate_request
request_complete req f = rw (
  (validate_user_id-IsUserId req.spec.user_id).1 f.user,
  (validate_email-IsEmail req.spec.user_email).1 f.email,
  (as_duration-none (validate_duration req.spec.duration)).1
      ((validate_duration-IsDuration req.spec.duration).1 f.duration),
  permissions_complete req.spec.permissions f.permissions,
  cluster_complete req.spec.target_cluster f.cluster,
  reason_complete req.spec.reason req.spec.permissions f.reason,
  justification_complete req.spec.reason req.spec.permissions f.reason,
  approvers_complete req.spec.approvers f.approvers,
  namespaces_complete req.spec.namespaces req.spec.permissions f.namespaces,
)

-- The validating webhook allows a request exactly if it is admissible: its user id is U and ten capital
-- letters or digits, its email, its region and its namespaces have their shapes, the cluster has a name
-- and an account of twelve digits; its duration is numbers with units that fit in int64 and last, modulo
-- 2 ^ 64 nanoseconds, from 15 minutes to seven days; its permissions are of the eight, at least one,
-- `cluster-admin` only by itself and without namespaces; its reason has 10 to 500 bytes (50 for
-- `cluster-admin`), is not blank, is none of the ten empty words and holds none of the eight empty phrases;
-- its approvers are U and ten bytes, or names of teams; and no approver or namespace is there twice.
pub handle_iff : (req : JitAccessRequest) → (handle (some req) ≡ allowed) ↔ IsAdmissible req.spec
unfolding handle
handle_iff req =
    (λ h. request_sound req (ground arith), λ f. let e = request_complete req f in ground arith)
