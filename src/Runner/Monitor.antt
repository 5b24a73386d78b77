-- ===== src/Runner/Monitor.antt =====
-- When the monitor starts a process again, and how long it waits before.
use vpsssssskjwjw.Prelude.{
  ℕ, ◌-◌, ◌*◌, ◌≤◌, ◌<◌, ◌≡◌, ◌≢◌, Bool, true, false, some, length, arith, Option-cases, inl, inr,
}
use vpsssssskjwjw.Security.FailureCircuit.{drop_old}
use vpsssssskjwjw.Runner.{
  AppState, AppSpec, never, on_failure, should_restart, record_restart, returns, sleeps, backoff,
  monitor_failure, after_exit, round,
}

-- The policy and the operator want a restart after this exit.
abbrev pub IsWanted : AppState → Bool → Type 0
IsWanted s exit_ok =
    (s.desired_running ≡ true)
    × (s.spec.restart ≢ never)
    × (s.spec.restart ≡ on_failure → exit_ok ≡ false)

should_restart-IsWanted :
    (s : AppState) (exit_ok : Bool) → should_restart s exit_ok ≡ true → IsWanted s exit_ok
unfolding should_restart
should_restart-IsWanted s exit_ok h =
    (ground (arith, h), λ p. ground (arith, h, p), λ p. ground (arith, h, p))

scaled_le : (d j m : ℕ) → d ≤ m → j ≤ 115 → d * j ≤ 115 * m
scaled_le d j m h k = grind arith

backoff_le : (spec : AppSpec) (e d : ℕ) → backoff spec e ≡ some d → d ≤ spec.backoff_max_ms
unfolding backoff
backoff_le spec e d h = ground (arith, h)

after_exit_delay :
    (s : AppState) (exit_ok : Bool) (jitter now now' delay : ℕ)
    → (after_exit s exit_ok jitter now now').0 ≡ sleeps delay
    → jitter ≤ 115
    → delay ≤ 115 * s.spec.backoff_max_ms
unfolding after_exit monitor_failure
after_exit_delay s exit_ok jitter now now' delay h hi =
    let e =
      (record_restart (record s { last_exit_ok = some exit_ok; process = false })
        now).1.restart_count
      - 1 in
    elim (Option-cases (backoff s.spec e)) [
      | inl no_float ↦ unfold record_restart in ground (arith, h, no_float)
      | inr (d, p) ↦
          ground
            (arith, h, p, scaled_le d jitter s.spec.backoff_max_ms (backoff_le s.spec e d p) hi)
    ]

-- After an exit the monitor goes on only if the application is still wanted, its policy asks for a
-- restart after such an exit, and the guard against crash loops has room; and then it waits at most
-- 1.15 times the longest backoff.
pub after_exit_sleeps :
    (s : AppState) (exit_ok : Bool) (jitter now now' delay : ℕ)
    → (after_exit s exit_ok jitter now now').0 ≡ sleeps delay
    → jitter ≤ 115
    → IsWanted s exit_ok
      × (length (drop_old s.spec.restart_window_ms now s.restart_times) < s.spec.max_restarts)
      × (delay ≤ 115 * s.spec.backoff_max_ms)
after_exit_sleeps s exit_ok jitter now now' delay h hi = (
  should_restart-IsWanted s exit_ok (unfold after_exit should_restart in ground (arith, h)),
  unfold after_exit record_restart in ground (arith, h),
  after_exit_delay s exit_ok jitter now now' delay h hi,
)

-- The guard, once it has opened the circuit, holds: neither an exit nor a round of the monitor starts
-- a process, until `start_app` or `restart_app` clears it.
pub round_open :
    (s : AppState) (spawned : Bool) (now : ℕ)
    → s.circuit_open ≡ true
    → ((round s spawned now).0 ≡ some returns) × ((round s spawned now).1.process ≡ s.process)
unfolding round
round_open s spawned now h = ground (arith, h)
