-- ===== src/Controller/Request/Settled.antt =====
-- That the reconciler of pkg/controller/jitaccess_controller.go comes to rest.
use jit_bot.Base.{
  ℕ, suc, ◌+◌, ◌≤◌, ◌≡◌, refl, sym, ap, ◌⊎◌, inl, inr, Bool, true, false, List, [], ◌∷◌, Option,
  none, some, Bytes, arith, str_eq, str_eq_refl, if◌then◌else◌,
}
use jit_bot.Base.Int.{ℤ}
use jit_bot.Auth.{Rbac}
use jit_bot.Controller.Types.{
  JitAccessRequest, AccessPhase, unset, pending, approved, denied, active, expired, revoked,
  unknown, ObjectReference,
}
use jit_bot.Controller.Kube.{ApiServer, ApiError}
use jit_bot.Controller.Request.{Faults, reconcile}
use jit_bot.Controller.Request.Phases.{
  Step, stay, submitted, approve, provision, expire, reconcile-Moved,
}

unfoldable pub is_same : AccessPhase → AccessPhase → Bool
is_same unset unset = true
is_same pending pending = true
is_same approved approved = true
is_same denied denied = true
is_same active active = true
is_same expired expired = true
is_same revoked revoked = true
is_same (unknown s) (unknown t) = str_eq s t
is_same _ _ = false

-- How far a phase is; no round leaves those of rank 4.
unfoldable pub rank : AccessPhase → ℕ
rank unset = 0
rank pending = 1
rank approved = 2
rank active = 3
rank _ = 4

is_same_refl : (p : AccessPhase) → is_same p p ≡ true
unfolding is_same
is_same_refl unset = refl
is_same_refl pending = refl
is_same_refl approved = refl
is_same_refl denied = refl
is_same_refl active = refl
is_same_refl expired = refl
is_same_refl revoked = refl
is_same_refl (unknown s) = str_eq_refl s

rank_le : (p : AccessPhase) → rank p ≤ 4
unfolding rank
rank_le unset = omega arith
rank_le pending = omega arith
rank_le approved = omega arith
rank_le denied = omega arith
rank_le active = omega arith
rank_le expired = omega arith
rank_le revoked = omega arith
rank_le (unknown s) = omega arith

-- A step keeps the phase or raises its rank.
step-rank :
    (rbac : Rbac) (now : ℤ) (old new : JitAccessRequest)
    → Step rbac now old new
    → (new.status.phase ≡ old.status.phase) ⊎ (suc (rank old.status.phase) ≤ rank new.status.phase)
unfolding rank
step-rank rbac now old new (stay e) = inl e
step-rank rbac now old new (submitted e f) = inr (rw (e, f) (omega arith))
step-rank rbac now old new (approve e g f) = inr (rw (e, f) (omega arith))
step-rank rbac now old new (provision e f) = inr (rw (e, f) (omega arith))
step-rank rbac now old new (expire e g f) = inr (rw (e, f) (omega arith))

-- Whether a stored request has another phase than before; `none` where there is no request.
abbrev pub phase_changed : Option JitAccessRequest → Option JitAccessRequest → Bool
unfolding is_same
phase_changed none none = false
phase_changed none (some _) = true
phase_changed (some _) none = true
phase_changed (some old) (some new) =
    if is_same old.status.phase new.status.phase then false else true

still :
    (old new : JitAccessRequest)
    → new.status.phase ≡ old.status.phase
    → phase_changed (some old) (some new) ≡ false
unfolding is_same
still old new e = rw (e, is_same_refl old.status.phase)

-- One more round, by what it does to the rank.
one_more :
    (b : Bool) (n r r' : ℕ)
    → ((b ≡ false) × (r ≡ r')) ⊎ (suc r ≤ r')
    → n + r' ≤ 4
    → (if b then suc n else n) + r ≤ 4
one_more true n r r' (inl (e, f)) h = absurd cc
one_more true n r r' (inr up) h = omega arith
one_more false n r r' (inl (e, f)) h = omega arith
one_more false n r r' (inr up) h = omega arith

module _ (api : ApiServer) (rbac : Rbac) (describe : ApiError → Bytes) (key : ObjectReference) where
  -- How many rounds of a sequence change the phase of the request.
  unfoldable pub changes : List (ℤ × Faults) → api.State → ℕ
  changes [] k = 0
  changes ((now, faults) ∷ rest) k =
      let k' = (reconcile api rbac now faults key describe k).kube in
      let others = changes rest k' in
      if phase_changed (api.request_at key k) (api.request_at key k') then suc others else others

  -- In every sequence of rounds, whatever the clock and the server's refusals, the phase of a stored
  -- request changes at most four times, and at most as often as its phase is steps away from the end.
  pub changes-rank :
      (rounds : List (ℤ × Faults)) (k : api.State) (req : JitAccessRequest)
      → api.request_at key k ≡ some req
      → changes rounds k + rank req.status.phase ≤ 4
  unfolding changes
  changes-rank [] k req stored = let small = rank_le req.status.phase in omega arith
  changes-rank ((now, faults) ∷ rest) k req stored =
      let k' = (reconcile api rbac now faults key describe k).kube in
      let moved = reconcile-Moved api rbac now faults key describe req k stored in
      one_more (phase_changed (api.request_at key k) (api.request_at key k')) (changes rest k')
        (rank req.status.phase) (rank moved.new.status.phase)
        (elim (step-rank rbac now req moved.new moved.step) [
          | inl e ↦ inl (rw (stored, moved.stored) (still req moved.new e), ap rank (sym e))
          | inr up ↦ inr up
        ])
        (changes-rank rest k' moved.new moved.stored)
