-- ===== src/Observe/Monitor/Untraced.antt =====
-- The monitor of pkg/monitoring/monitoring.go without tracing, which is its default.
use jit_bot.Base.{ℕ, ◌≡◌, ap, ◌∙◌, false, Option, none, map}
use jit_bot.Base.Result.{ok}
use jit_bot.Observe.Run.{Process, Run, done, panicked, emit, sample}
use jit_bot.Observe.Tracing.{Surroundings}
use jit_bot.Observe.Monitor.{Monitor, start_monitor, start_servers, initialize_health_checks}
use jit_bot.Observe.Track.Calls.{Tracked, track, counted_before}
use jit_bot.Observe.Track.Transparent.{track-nil}

module _ {X E S : Type 0} (out : Surroundings X) (m : Monitor) (w : Process E S) where
  start_untraced :
      {m' : Monitor} {w' : Process E S}
      → m.config.tracing.enabled ≡ false
      → start_monitor out m w ≡ done (ok m') w'
      → w' ≡ emit (map sample initialize_health_checks) w
  unfolding start_monitor start_servers
  start_untraced off started = cc (rw (off, start_monitor) at started)

  -- A monitor whose tracing is disabled starts and leaves the global tracer nil; after that each Track
  -- function panics and never calls the function that it wraps.
  pub untraced_panics :
      (t : Tracked) (fn : ℕ → Run E S (Option E)) {m' : Monitor} {w' : Process E S}
      → m.config.tracing.enabled ≡ false
      → w.tracer ≡ none
      → start_monitor out m w ≡ done (ok m') w'
      → track t fn w' ≡ panicked (counted_before t w')
  untraced_panics t fn {m'} {w'} off nil started =
      track-nil t fn w' (ap (λ (v : Process E S). v.tracer) (start_untraced off started) ∙ nil)
