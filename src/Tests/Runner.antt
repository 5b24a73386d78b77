-- ===== src/Tests/Runner.antt =====
-- The monitor of src/titanbox/runner.py at concrete inputs.
use vpsssssskjwjw.Prelude.{
  ℕ, ◌*◌, ◌≤◌, ◌<◌, ◌≡◌, refl, Bool, true, false, none, some, List, [], ◌∷◌, length, arith,
}
use vpsssssskjwjw.Security.FailureCircuit.{drop_old}
use vpsssssskjwjw.Security.FailureCircuit.Laws.{count_recent}
use vpsssssskjwjw.Runner.{
  AppSpec, AppState, always, sleeps, returns, after_exit, round, Sample, wait_healthy,
}
use vpsssssskjwjw.Runner.Restarts.{attempts, last_time, restarts_bounded}
use vpsssssskjwjw.Runner.Monitor.{IsWanted, after_exit_sleeps, round_open}
use vpsssssskjwjw.Runner.Health.{BecomesSteady, wait_healthy_sound}

abbrev spec : AppSpec
spec = record {
  enabled = true;
  restart = always;
  max_restarts = 3;
  restart_window_ms = 1000;
  backoff_base_ms = 500;
  backoff_max_ms = 8000;
}

abbrev app : ℕ → Bool → AppState
app restarts opened = record {
  spec = spec;
  process = true;
  monitor = true;
  desired_running = true;
  restart_times = [];
  restart_count = restarts;
  last_exit_ok = none;
  circuit_open = opened;
  failed = false;
}

restarts_bounded_example :
    count_recent 1000
      (last_time 0 (10 ∷ 20 ∷ 900 ∷ 2000 ∷ []))
      (attempts (app 0 false) [] (10 ∷ 20 ∷ 900 ∷ 2000 ∷ [])).1
    ≤ 3
restarts_bounded_example =
    restarts_bounded (app 0 false) 0 (10 ∷ 20 ∷ 900 ∷ 2000 ∷ []) refl
      (omega arith, (omega arith, (omega arith, (omega arith, tt))))

after_exit_sleeps_example :
    IsWanted (app 2 false) false × (length (drop_old 1000 50 []) < 3) × (200000 ≤ 115 * 8000)
unfolding after_exit vpsssssskjwjw.Runner.should_restart vpsssssskjwjw.Runner.record_restart
    drop_old vpsssssskjwjw.Runner.backoff
after_exit_sleeps_example =
    after_exit_sleeps (app 2 false) false 100 50 51 200000 refl (omega arith)

round_open_example :
    ((round (app 2 true) true 50).0 ≡ some returns)
    × ((round (app 2 true) true 50).1.process ≡ true)
round_open_example = round_open (app 2 true) true 50 refl

abbrev samples : List Sample
samples =
    record { checked = 100; process = true; circuit_open = false; read = 101 }
    ∷ record { checked = 400; process = true; circuit_open = false; read = 401 }
    ∷ []

wait_healthy_sound_example : BecomesSteady 300 1000 samples
unfolding wait_healthy
wait_healthy_sound_example = wait_healthy_sound 300 1000 samples refl
