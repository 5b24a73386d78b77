-- ===== src/Runner.antt =====
-- `AppRunner` of src/titanbox/runner.py: the state of one application, the loop of its monitor cut
-- at the places where it waits, and the operations that start it. Times are milliseconds.
pub mod Restarts
pub mod Monitor
pub mod Health
use vpsssssskjwjw.Prelude.{
  ℕ, ◌+◌, ◌-◌, ◌*◌, ◌^◌, max, min, Bool, true, false, ◌&&◌, not, Option, none, some, List, [], ◌∷◌,
  ◌++◌, Text, text_eq, nat_eq, ◌==◌, leb, length, if◌then◌else◌,
}
use vpsssssskjwjw.Prelude.Dict.{Dict, lookup, insert}
use vpsssssskjwjw.Security.FailureCircuit.{drop_old}

pub data RestartPolicy : Type 0 where
  never on_failure always : RestartPolicy

-- The fields of `AppSpec` that the monitor reads.
pub record AppSpec : Type 0 where
  pub enabled : Bool
  pub restart : RestartPolicy
  pub max_restarts : ℕ
  pub restart_window_ms : ℕ
  pub backoff_base_ms : ℕ
  pub backoff_max_ms : ℕ

-- An exit code is zero or not; `process` is whether a process runs, `monitor` whether the monitor's
-- task is alive, and `failed` whether `last_error` is set.
pub record AppState : Type 0 where
  pub spec : AppSpec
  pub process : Bool
  pub monitor : Bool
  pub desired_running : Bool
  pub restart_times : List ℕ
  pub restart_count : ℕ
  pub last_exit_ok : Option Bool
  pub circuit_open : Bool
  pub failed : Bool

unfoldable pub should_restart : AppState → Bool → Bool
should_restart s exit_ok =
    if not s.desired_running
    then false
    else elim s.spec.restart [ always ↦ true | on_failure ↦ not exit_ok | never ↦ false ]

unfoldable pub record_restart : AppState → ℕ → Bool × AppState
record_restart s now =
    let times = drop_old s.spec.restart_window_ms now s.restart_times in
    if leb s.spec.max_restarts (length times)
    then (false, record s { restart_times = times; circuit_open = true })
    else (
      true,
      record s { restart_times = times ++ (now ∷ []); restart_count = s.restart_count + 1 },
    )

-- What the monitor does next: it returns, or sleeps and goes round its loop.
pub data Next : Type 0 where
  returns : Next
  sleeps : ℕ → Next

-- `backoff_base_seconds * (2**exponent)`: a float times an `int`, which raises an `OverflowError`
-- where the `int` is no float, from 2^1024 on.
unfoldable pub backoff : AppSpec → ℕ → Option ℕ
backoff spec exponent =
    if leb 1024 exponent
    then none
    else some (min spec.backoff_max_ms (spec.backoff_base_ms * 2 ^ exponent))

-- The handler `except Exception`.
unfoldable pub monitor_failure : AppState → ℕ → Next × AppState
monitor_failure s now =
    let (granted, s') = record_restart (record s { failed = true }) now in
    if granted
    then (sleeps (100 * min s.spec.backoff_max_ms s.spec.backoff_base_ms), s')
    else (returns, record s' { monitor = false })

-- The rest of a round after the process has exited. `jitter` is the random factor in hundredths, so
-- a sleep is in hundredths of a millisecond. An exception on the way is handled at `now'`.
unfoldable pub after_exit : AppState → Bool → ℕ → ℕ → ℕ → Next × AppState
after_exit s exit_ok jitter now now' =
    let s₁ = record s { last_exit_ok = some exit_ok; process = false } in
    let (granted, s₂) = record_restart s₁ now in
    if not (should_restart s₁ exit_ok)
    then (returns, record s₁ { monitor = false })
    else if not granted
    then (returns, record s₂ { monitor = false })
    else elim (backoff s.spec (s₂.restart_count - 1)) [
      | some delay ↦ (sleeps (delay * jitter), s₂)
      | none ↦ monitor_failure s₂ now'
    ]

-- The head of a round: `some` if the process is to be spawned. `spawned` is whether `_spawn` did not
-- raise.
unfoldable pub round : AppState → Bool → ℕ → Option Next × AppState
round s spawned now =
    let (next, s') = monitor_failure s now in
    if not s.desired_running
    then (some returns, record s { monitor = false })
    else if s.circuit_open
    then (some returns, record s { monitor = false })
    else if spawned
    then (none, record s { process = true; failed = false })
    else (some next, s')

unfoldable pub start_app : AppState → AppState
start_app s = if s.process then s else if s.monitor && s.desired_running then s else record s {
  desired_running = true;
  circuit_open = false;
  failed = false;
  restart_times = [];
  monitor = true;
}

unfoldable pub restart_app : AppState → AppState
restart_app s = record s {
  process = false;
  desired_running = true;
  circuit_open = false;
  restart_times = [];
  monitor = true;
}

-- What `wait_healthy` sees in one round of its loop: the clock at the test of the deadline, whether
-- the process runs, `circuit_open`, and the clock where `stable_since` is set or compared.
pub record Sample : Type 0 where
  pub checked : ℕ
  pub process : Bool
  pub circuit_open : Bool
  pub read : ℕ

-- The loop, over what its rounds see; past the deadline, or when the samples end, the answer is no.
unfoldable pub wait_healthy : ℕ → ℕ → Option ℕ → List Sample → Bool
wait_healthy grace deadline stable_since [] = false
wait_healthy grace deadline stable_since (r ∷ samples) =
    let since : Option ℕ = elim stable_since [ none ↦ some r.read | some t ↦ some t ] in
    let stable = wait_healthy grace deadline since samples in
    let lost = wait_healthy grace deadline none samples in
    if leb deadline r.checked
    then false
    else if r.process && not r.circuit_open
    then elim stable_since [
      | none ↦ stable
      | some t ↦ if leb grace (r.read - t) then true else stable
    ]
    else if r.circuit_open
    then false
    else lost
