-- ===== src/Security/FailureCircuit.antt =====
-- `FailureCircuit` of src/titanbox/security.py. Times are milliseconds of the monotonic clock, which
-- each method reads for itself: `now` is its reading. The failures stand oldest first.
pub mod Laws
use vpsssssskjwjw.Prelude.{
  ℕ, ◌+◌, ◌-◌, ◌/◌, max, Bool, true, false, ◌&&◌, List, [], ◌∷◌, ◌++◌, ltb, leb, length,
  if◌then◌else◌,
}

pub record FailureCircuit : Type 0 where
  pub threshold : ℕ
  pub window_ms : ℕ
  pub cooldown_ms : ℕ
  pub failures : List ℕ
  pub open_until : ℕ

unfoldable pub make : ℕ → ℕ → ℕ → FailureCircuit
make threshold window_ms cooldown_ms = record {
  threshold = threshold;
  window_ms = window_ms;
  cooldown_ms = cooldown_ms;
  failures = [];
  open_until = 0;
}

-- The loop of `_prune`, which drops from the front what is older than the window.
unfoldable pub drop_old : ℕ → ℕ → List ℕ → List ℕ
drop_old window now [] = []
drop_old window now (t ∷ ts) =
    let rest = drop_old window now ts in if ltb window (now - t) then rest else t ∷ ts

unfoldable pub prune : FailureCircuit → ℕ → FailureCircuit
prune c now = record c { failures = drop_old c.window_ms now c.failures }

-- `int(open_until - now + 0.999)`, in whole seconds.
unfoldable pub seconds_left : ℕ → ℕ → ℕ
seconds_left open_until now = max 1 ((open_until - now + 999) / 1000)

unfoldable pub retry_after : FailureCircuit → ℕ → ℕ × FailureCircuit
unfolding seconds_left
retry_after c now =
    if ltb 0 c.open_until && leb c.open_until now
    then (0, record c { open_until = 0; failures = [] })
    else if leb c.open_until now
    then (0, c)
    else (seconds_left c.open_until now, c)

unfoldable pub is_open : FailureCircuit → ℕ → Bool × FailureCircuit
unfolding retry_after
is_open c now = let (wait, c') = retry_after c now in (ltb 0 wait, c')

unfoldable pub record_failure : FailureCircuit → ℕ → FailureCircuit
unfolding prune
record_failure c now =
    let failures = drop_old c.window_ms now c.failures ++ (now ∷ []) in
    record c {
      failures = failures;
      open_until =
          if leb c.threshold (length failures)
          then max c.open_until (now + c.cooldown_ms)
          else c.open_until;
    }

-- `popleft` after the guard that the deque is not empty.
abbrev popleft : List ℕ → List ℕ
popleft [] = []
popleft (t ∷ ts) = ts

-- The second reading of the clock is that of `is_open`.
unfoldable pub record_success : FailureCircuit → ℕ → ℕ → FailureCircuit
unfolding prune is_open
record_success c now now' =
    let (open', c') = is_open (prune c now) now' in
    if open' then c' else record c' { failures = popleft c'.failures }

unfoldable pub recent_failures : FailureCircuit → ℕ → ℕ × FailureCircuit
unfolding prune
recent_failures c now = let c' = prune c now in (length c'.failures, c')
