-- ===== src/Tests/Start.antt =====
-- The start of the operator and of the server on concrete inputs.
use jit_bot.Base.{◌≡◌, refl, ◌↔◌, [], Option, none, some, Bytes, codes}
use jit_bot.Base.Result.{ok}
use jit_bot.Observe.Run.{done}
use jit_bot.Observe.Monitor.{Monitor, new_monitor, start_monitor}
use jit_bot.Operator.{
  OperatorAnswers, Ending, Stage, flag_defaults, monitoring_config, webhook_opts, operator_main,
}
use jit_bot.Operator.Finished.{IsEnding, operator_main-IsEnding}
use jit_bot.Serve.{HttpServer, run_serve}
use jit_bot.Auth.{router_rbac}
use jit_bot.Aws.Memory.{entries}
use jit_bot.Handlers.{Server}
use jit_bot.Handlers.Start.{Loading, new_router}
use jit_bot.Serve.Listening.{IsServed, run_serve_iff}
use jit_bot.Tests.Settings.{read_texts, two_settings, expected}
use jit_bot.Tests.Telemetry.{plain, untraced, started}

-- The job controller cannot be made.
abbrev no_jobs : Stage → Option Bytes
no_jobs Stage.job_controller = some (codes "no kind is registered")
no_jobs _ = none

abbrev answers : OperatorAnswers Bytes
answers = record {
  surroundings = plain;
  config_error = none;
  manager_error = λ _. none;
  stage_error = no_jobs;
  shutdown_error = λ _. none;
}

abbrev monitored : Monitor
monitored = record (new_monitor (monitoring_config flag_defaults plain.getenv)) {
  metrics_server = some 8080;
  health_server = some 8081;
}

monitor_starts :
    start_monitor plain (new_monitor (monitoring_config flag_defaults plain.getenv)) untraced
    ≡ done (ok monitored) started
unfolding start_monitor new_monitor monitoring_config
monitor_starts = refl

operator_main-IsEnding_example :
    (ending : Ending Bytes) × ((operator_main answers flag_defaults untraced ≡ done ending started)
      × IsEnding answers flag_defaults (answers.manager_error (webhook_opts flag_defaults)) ending)
operator_main-IsEnding_example =
    operator_main-IsEnding answers flag_defaults untraced refl monitor_starts

-- No region fails to load.
abbrev loads : Loading Bytes
loads = record { sts_error = λ _. none; eks_error = λ _. none }

abbrev served : HttpServer (Server entries)
served = record {
  addr = codes ":8080";
  handler = record {
    rbac = router_rbac expected.auth.admin_users expected.auth.approvers;
    store = record { clusters = []; accesses = [] };
    entries = [];
  };
  read_timeout = expected.server.read_timeout;
  write_timeout = expected.server.write_timeout;
  idle_timeout = expected.server.idle_timeout;
}

run_serve_iff_example :
    (run_serve read_texts two_settings (new_router loads entries []) ≡ ok served)
    ↔ IsServed read_texts two_settings loads entries [] served
run_serve_iff_example = run_serve_iff read_texts two_settings loads entries [] served
