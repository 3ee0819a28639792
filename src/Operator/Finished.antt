-- ===== src/Operator/Finished.antt =====
-- How main of cmd/operator/main.go ends.
use jit_bot.Base.{
  ◌≡◌, ◌≢◌, refl, ◌↔◌, Bool, true, false, List, [], ◌∷◌, Option, none, some, Bytes, All, arith,
}
use jit_bot.Base.Result.{ok}
use jit_bot.Observe.Run.{Process, done}
use jit_bot.Observe.Monitor.{Monitor, new_monitor, start_monitor}
use jit_bot.Operator.{
  OperatorFlags, OperatorAnswers, Ending, Stage, access_manager, request_controller, job_controller,
  healthz_check, readyz_check, start_manager, stage_answer, run_stages, stages, chosen_region,
  webhook_opts, monitoring_config, with_manager, with_monitor, after_start, operator_main,
}

abbrev pub reaches_start : List Stage → Bool
reaches_start [] = false
reaches_start (start_manager ∷ l) = true
reaches_start (_ ∷ l) = reaches_start l

-- The steps of main before the manager is started that can fail.
abbrev pub set_up : OperatorFlags → (Bytes → Bytes) → List Stage
set_up flags getenv =
    access_manager (chosen_region flags getenv)
    ∷ request_controller
    ∷ job_controller
    ∷ healthz_check
    ∷ readyz_check
    ∷ []

module _ {X : Type 0} (answers : OperatorAnswers X) (flags : OperatorFlags) where
  abbrev pub IsFine : Stage → Type 0
  IsFine stage = answers.stage_error stage ≡ none

  reaches_iff :
      (reaches_start (run_stages answers.stage_error (stages flags answers.surroundings.getenv))
        ≡ true)
      ↔ All IsFine (set_up flags answers.surroundings.getenv)
  unfolding run_stages stages stage_answer
  reaches_iff = (λ h. ground arith, λ h. ground arith)

  -- What the end is, by the error of the manager: the status is 0; the monitor is not stopped exactly
  -- if the manager could not be made; and the manager is started exactly if nothing before it failed.
  abbrev pub IsEnding : Option X → Ending X → Type 0
  IsEnding manager_error ending =
      (ending.status ≡ 0)
      × ((ending.stopped ≡ none) ↔ (manager_error ≢ none))
      × ((reaches_start ending.tried ≡ true)
          ↔ ((manager_error ≡ none) × All IsFine (set_up flags answers.surroundings.getenv)))

  with_manager-IsEnding : (o : Option X) (m : Monitor) → IsEnding o (with_manager answers flags o m)
  unfolding with_manager
  with_manager-IsEnding none m = (
    refl,
    (λ h. absurd cc, λ h. absurd (h refl)),
    (λ h. (refl, reaches_iff.0 h), λ h. reaches_iff.1 h.1),
  )
  with_manager-IsEnding (some e) m =
      (refl, (λ h k. cc, λ h. refl), (λ h. absurd cc, λ h. absurd (cc h.0)))

  -- Behind a monitor that starts and a configuration of the cluster that is found, main ends with status
  -- 0 whatever fails; it stops the monitor unless the manager could not be made; and it starts the
  -- manager exactly if the manager was made and none of the access manager, the two controllers and
  -- the two checks failed.
  pub operator_main-IsEnding :
      {E S : Type 0} (w : Process E S) {m' : Monitor} {w' : Process E S}
      → answers.config_error ≡ none
      → start_monitor answers.surroundings
          (new_monitor (monitoring_config flags answers.surroundings.getenv))
          w
        ≡ done (ok m') w'
      → (ending : Ending X) × ((operator_main answers flags w ≡ done ending w')
          × IsEnding (answers.manager_error (webhook_opts flags)) ending)
  unfolding operator_main after_start with_monitor
  operator_main-IsEnding w {m'} found h = (
    with_manager answers flags (answers.manager_error (webhook_opts flags)) m',
    (ground (arith, h), with_manager-IsEnding (answers.manager_error (webhook_opts flags)) m'),
  )
