-- ===== src/Orchestrator/Supervisor/Tests.antt =====
-- The restart loop at concrete inputs.
use regent_backend.Base.{◌≤◌, ◌<◌, ◌≡◌, refl, false, List, [], ◌∷◌, All, arith, length}
use regent_backend.Orchestrator.Supervisor.{
  Config, Round, failed, exited, again, dead_lettered, loop, step, run_with_supervisor,
  default_config, fresh,
}
use regent_backend.Orchestrator.Supervisor.Backoff.{IsBounded, run_with_supervisor-waits}
use regent_backend.Orchestrator.Supervisor.Crashes.{after_crashes, run_with_supervisor-crashes}

abbrev crash : Round
crash = failed 5 0 false

abbrev small_config : Config
small_config = record {
  base_backoff = 4;
  max_backoff = 10;
  max_failures = 3;
  stable_threshold = 30;
}

abbrev two_crashes : List Round
two_crashes = crash ∷ crash ∷ []

abbrev three_crashes : List Round
three_crashes = crash ∷ two_crashes

third_crash_ends : (run_with_supervisor small_config three_crashes).1 ≡ dead_lettered
unfolding run_with_supervisor loop step
third_crash_ends = refl

run_with_supervisor-waits_example :
    All
      (IsBounded default_config)
      (run_with_supervisor default_config (exited ∷ crash ∷ three_crashes)).0
run_with_supervisor-waits_example =
    run_with_supervisor-waits default_config (exited ∷ crash ∷ three_crashes) (omega arith)
      (tt, (omega arith, (omega arith, (omega arith, (omega arith, tt)))))

run_with_supervisor-crashes_example :
    (length three_crashes < 3
      → (run_with_supervisor small_config three_crashes).1
        ≡ again (after_crashes small_config (fresh small_config) 3))
    × (3 ≤ length three_crashes
        → (run_with_supervisor small_config three_crashes).1 ≡ dead_lettered)
run_with_supervisor-crashes_example =
    run_with_supervisor-crashes small_config three_crashes (omega arith) (omega arith)
      ((omega arith, refl), ((omega arith, refl), ((omega arith, refl), tt)))
