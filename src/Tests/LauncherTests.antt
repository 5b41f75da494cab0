-- ===== src/Tests/LauncherTests.antt =====
-- The launcher's watchers in concrete runs.
use neuralgentics_broker.Prelude.{
  ℕ, String, ◌≡◌, refl, ap, ◌≢◌, true, false, none, some, [], arith, ◌==◌, put_at,
}
use neuralgentics_broker.Types.{ServerConfig}
use neuralgentics_broker.Registry.{register, modify}
use neuralgentics_broker.Launcher.{
  Pipes, Site, new_site, with_registry, clear_after_exit, start, begin_stop, end_stop, Step,
  registers, starts, exits, stops, stopped, Run, here, more, process_of,
}
use neuralgentics_broker.Launcher.Watchers.{IsWatched, run-IsWatched}
use neuralgentics_broker.Launcher.Handles.{IsHeld, run-IsHeld}
use neuralgentics_broker.Launcher.Lost.{sees-forgets}

abbrev config : String → ServerConfig
config name = record {
  name = name;
  command = name;
  args = [];
  env = none;
  type = "stdio";
  description = "";
  capabilities = [];
}

abbrev pipes : Pipes
pipes = (some 0, some 1)

abbrev registered_site : Site
registered_site = with_registry (register (config "git") new_site.registry) new_site

abbrev started_site : Site
started_site = start (config "git") pipes registered_site

-- the process has failed
abbrev failed_site : Site
failed_site = record started_site { exit = put_at started_site.exit 0 (some false) }

-- `Stop` has cleared it, and the server has been started again
abbrev restarted_site : Site
restarted_site = start (config "git") pipes (end_stop 0 "git" (begin_stop 0 "git" failed_site))

started_run : Run new_site started_site
started_run = more (more here (registers (config "git"))) (starts (config "git") pipes)

restarted_run : Run new_site restarted_site
unfolding register start begin_stop modify
restarted_run =
    more
      (more (more (more started_run (exits 0 false refl)) (stops 0 "git" refl))
        (stopped 0 "git" refl))
      (starts (config "git") pipes)

run-IsWatched_example : IsWatched restarted_site
run-IsWatched_example = run-IsWatched restarted_run

sees-forgets_example :
    (t : Site) × Step restarted_site t
    × (t.exit 1 ≡ none)
    × ((m : String) → process_of m t.registry ≢ some 1)
    × ((k : ℕ) → begin_stop k "git" t ≡ t)
unfolding register start begin_stop end_stop clear_after_exit modify process_of
sees-forgets_example = sees-forgets "git" 0 1 restarted_site restarted_run refl refl refl refl

-- another server is registered, and this one's process ends well
abbrev ended_site : Site
ended_site =
    let s = with_registry (register (config "web") started_site.registry) started_site in
    record s { exit = put_at s.exit 0 (some true) }

ended_run : Run started_site ended_site
unfolding register start modify
ended_run = more (more here (registers (config "web"))) (exits 0 true refl)

started-IsHeld : IsHeld "git" 0 started_site
unfolding register start modify process_of
started-IsHeld = record {
  held = refl;
  own = λ q w. ground (arith, w);
  unstopped = λ k e. ground (arith, e);
}

web-git : ◌≢◌ {A = String} "web" "git"
web-git = λ e. let b : false ≡ true = ap (λ (x : String). x == "git") e in ground (arith, b)

run-IsHeld_example : IsHeld "git" 0 ended_site
unfolding register start modify ended_run
run-IsHeld_example =
    run-IsHeld "git" 0 started_site ended_site ended_run ((tt, web-git), tt)
      (λ e. ground (arith, e)) started-IsHeld
