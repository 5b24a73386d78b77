-- ===== src/Security/FailureCircuit/Laws.antt =====
-- When the circuit is open, and for how long.
use vpsssssskjwjw.Prelude.{
  ℕ, ◌+◌, ◌-◌, ◌*◌, ◌≤◌, ◌<◌, ◌≡◌, refl, true, false, List, [], ◌∷◌, ltb, leb, length,
  if◌then◌else◌, arith, length-append,
}
use vpsssssskjwjw.Security.FailureCircuit.{
  FailureCircuit, drop_old, retry_after, is_open, record_failure, record_success,
}

-- The failures that lie within the window at `now`.
unfoldable pub count_recent : ℕ → ℕ → List ℕ → ℕ
count_recent window now [] = 0
count_recent window now (t ∷ ts) =
    (if ltb window (now - t) then 0 else 1) + count_recent window now ts

-- Oldest first.
abbrev pub IsOrdered : List ℕ → Type 0
IsOrdered [] = Unit
IsOrdered (t ∷ []) = Unit
IsOrdered (t ∷ u ∷ ts) = (t ≤ u) × IsOrdered (u ∷ ts)

count_recent-young :
    (window now t : ℕ) (ts : List ℕ)
    → IsOrdered (t ∷ ts)
    → ltb window (now - t) ≡ false
    → count_recent window now ts ≡ length ts
unfolding count_recent
count_recent-young window now t [] h y = refl
count_recent-young window now t (u ∷ ts) h y =
    ground (arith, count_recent-young window now u ts h.1)

-- On an ordered record pruning leaves as many failures as lie within the window.
pub length-drop_old :
    (window now : ℕ) (ts : List ℕ)
    → IsOrdered ts
    → length (drop_old window now ts) ≡ count_recent window now ts
unfolding drop_old count_recent
length-drop_old window now [] h = refl
length-drop_old window now (t ∷ []) h = ground arith
length-drop_old window now (t ∷ u ∷ ts) h =
    ground
      (arith, length-drop_old window now (u ∷ ts) h.1, count_recent-young window now t (u ∷ ts) h)

-- A failure opens the circuit for the whole cooldown exactly when, with it, at least `threshold`
-- failures lie within the window; otherwise the state of the circuit stays as it was. The failures
-- stand in the order of time.
pub record_failure_opens :
    (c : FailureCircuit) (now later : ℕ)
    → IsOrdered c.failures
    → now ≤ later
    → later < now + c.cooldown_ms
    → (is_open (record_failure c now) later).0 ≡ (
        if leb c.threshold (count_recent c.window_ms now c.failures + 1)
        then true
        else (is_open c later).0)
unfolding record_failure is_open
record_failure_opens c now later h k q = ground (
  arith,
  length-append (drop_old c.window_ms now c.failures) (now ∷ []),
  length-drop_old c.window_ms now c.failures h,
)

-- A success that is recorded while the circuit is open never closes it early.
pub record_success_keeps_open :
    (c : FailureCircuit) (now now' later : ℕ)
    → now' < c.open_until
    → (is_open (record_success c now now') later).0 ≡ (is_open c later).0
unfolding record_success
record_success_keeps_open c now now' later h = ground arith

-- A caller that waits for the advertised number of seconds finds the circuit closed, and one that
-- waits a second less finds it open.
pub retry_after_exact :
    (c : FailureCircuit) (now w : ℕ)
    → (retry_after c now).0 ≡ w
    → 0 < w
    → ((is_open c (now + w * 1000)).0 ≡ false) × ((is_open c (now + (w - 1) * 1000)).0 ≡ true)
unfolding is_open
retry_after_exact c now w e h = (ground arith, ground arith)
