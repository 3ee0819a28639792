-- ===== src/Observe/Monitor/Stopped.antt =====
-- Start and Stop of pkg/monitoring/monitoring.go.
use mathlib.Core.Path.{subst}
use jit_bot.Base.{
  ◌≡◌, ◌↔◌, refl, Bool, List, [], ◌∷◌, ◌++◌, Option, none, some, All, All-append, Option-cases,
  arith, inl, inr, if◌then◌else◌,
}
use jit_bot.Base.Result.{ok}
use jit_bot.Observe.Run.{Process, done}
use jit_bot.Observe.Tracing.{Surroundings, make_provider}
use jit_bot.Observe.Monitor.{
  Monitor, MonitorConfig, new_monitor, start_monitor, stop_monitor, shut_down, Part, metrics_part,
  health_part, tracer_part,
}

abbrev if_set : Bool → Part → List Part
if_set b part = if b then part ∷ [] else []

-- What a configuration asks for.
abbrev pub services : MonitorConfig → List Part
services c =
    if_set c.metrics_enabled metrics_part ++ (health_part ∷ if_set c.tracing.enabled tracer_part)

append-eq-nil {ℓ} : {A : Type ℓ} (xs ys : List A) → xs ++ ys ≡ [] → (xs ≡ []) × (ys ≡ [])
append-eq-nil [] ys h = (refl, h)
append-eq-nil (x ∷ xs) ys h = absurd cc

All-split {ℓ κ} :
    {A : Type ℓ} (P : A → Type κ) (xs ys : List A) → All P (xs ++ ys) → All P xs × All P ys
All-split P [] ys h = (tt, h)
All-split P (x ∷ xs) ys h = let (l, r) = All-split P xs ys h.1 in ((h.0, l), r)

module _ {X : Type 0} (answers : Part → Option X) where
  abbrev IsFine : Part → Type 0
  IsFine part = answers part ≡ none

  -- What is reported is nothing exactly if no answer of what was tried is an error.
  abbrev IsExact : List Part × List (Part × X) → Type 0
  IsExact (tried, errs) = (errs ≡ []) ↔ All IsFine tried

  IsExact-append :
      (t1 t2 : List Part) (e1 e2 : List (Part × X))
      → IsExact (t1, e1)
      → IsExact (t2, e2)
      → IsExact (t1 ++ t2, e1 ++ e2)
  IsExact-append t1 t2 e1 e2 h1 h2 = (clean, silent)
    where
      clean : e1 ++ e2 ≡ [] → All IsFine (t1 ++ t2)
      clean h = let (l, r) = append-eq-nil e1 e2 h in All-append IsFine t1 t2 (h1.0 l) (h2.0 r)

      silent : All IsFine (t1 ++ t2) → e1 ++ e2 ≡ []
      silent a = let (l, r) = All-split IsFine t1 t2 a in rw (h1.1 l, h2.1 r) refl

  shut_down-IsExact : {A : Type 0} (part : Part) (o : Option A) → IsExact (shut_down answers part o)
  unfolding shut_down
  shut_down-IsExact part none = (λ _. tt, λ _. refl)
  shut_down-IsExact part (some x) = elim (Option-cases (answers part)) [
    | inl e ↦ rw e (λ _. (refl, tt), λ _. refl)
    | inr (x', e) ↦ rw e (λ h. absurd cc, λ h. absurd (cc h.0))
  ]

  stop_monitor-IsExact : (m : Monitor) → IsExact (stop_monitor answers m)
  unfolding stop_monitor
  stop_monitor-IsExact m =
      let metrics = shut_down answers metrics_part m.metrics_server in
      let health = shut_down answers health_part m.health_server in
      let tracing = shut_down answers tracer_part m.tracer_provider in
      IsExact-append metrics.0 (health.0 ++ tracing.0) metrics.1 (health.1 ++ tracing.1)
        (shut_down-IsExact metrics_part m.metrics_server)
        (IsExact-append health.0 tracing.0 health.1 tracing.1
          (shut_down-IsExact health_part m.health_server)
          (shut_down-IsExact tracer_part m.tracer_provider))

-- A monitor that has just been started.
module _ {X Y E S : Type 0} (out : Surroundings Y) (config : MonitorConfig) (w : Process E S)
    (answers : Part → Option X) where
  started_tries :
      {m' : Monitor} {w' : Process E S}
      → start_monitor out (new_monitor config) w ≡ done (ok m') w'
      → (stop_monitor answers m').0 ≡ services config
  unfolding start_monitor stop_monitor new_monitor shut_down make_provider
  started_tries h = ground arith

  -- Stop on a monitor that has just been started tries exactly the services that the configuration
  -- asks for, the metrics server, the health server and the tracer in this order, and returns nil
  -- exactly if each of them shuts down without an error.
  pub started_stops :
      {m' : Monitor} {w' : Process E S}
      → start_monitor out (new_monitor config) w ≡ done (ok m') w'
      → ((stop_monitor answers m').0 ≡ services config)
        × (((stop_monitor answers m').1 ≡ []) ↔ All (λ part. answers part ≡ none) (services config))
  started_stops {m'} h = (
    started_tries h,
    subst (λ tried. ((stop_monitor answers m').1 ≡ []) ↔ All (IsFine answers) tried)
        (started_tries h) (stop_monitor-IsExact answers m'),
  )
