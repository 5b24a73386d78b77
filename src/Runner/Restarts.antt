-- ===== src/Runner/Restarts.antt =====
-- The crash-loop guard: how many restarts fall into one window.
use vpsssssskjwjw.Prelude.{
  ℕ, ◌≤◌, ◌≡◌, refl, ◌∙◌, ap, Bool, true, false, List, [], ◌∷◌, ◌++◌, length, if◌then◌else◌, arith,
  length-append,
}
use vpsssssskjwjw.Security.FailureCircuit.{drop_old}
use vpsssssskjwjw.Security.FailureCircuit.Laws.{count_recent, IsOrdered, length-drop_old}
use vpsssssskjwjw.Runner.{AppState, AppSpec, record_restart}

-- Attempts at the given clock readings, with the restarts that were granted, oldest first.
unfoldable pub attempts : AppState → List ℕ → List ℕ → AppState × List ℕ
attempts s granted [] = (s, granted)
attempts s granted (now ∷ times) =
    let (ok', s') = record_restart s now in
    attempts s' (if ok' then granted ++ (now ∷ []) else granted) times

abbrev pub IsMonotonic : ℕ → List ℕ → Type 0
IsMonotonic t [] = Unit
IsMonotonic t (now ∷ times) = (t ≤ now) × IsMonotonic now times

-- The reading of the last attempt.
abbrev pub last_time : ℕ → List ℕ → ℕ
last_time t [] = t
last_time t (now ∷ times) = last_time now times

drop_old-drop_old :
    (w t now : ℕ) (l : List ℕ) → t ≤ now → drop_old w now (drop_old w t l) ≡ drop_old w now l
unfolding drop_old
drop_old-drop_old w t now [] h = refl
drop_old-drop_old w t now (x ∷ l) h = ground (arith, drop_old-drop_old w t now l h)

drop_old-snoc :
    (w now : ℕ) (l : List ℕ) → drop_old w now (l ++ (now ∷ [])) ≡ drop_old w now l ++ (now ∷ [])
unfolding drop_old
drop_old-snoc w now [] = ground arith
drop_old-snoc w now (x ∷ l) = ground (arith, drop_old-snoc w now l)

-- Every element at most `t`.
abbrev IsBefore : ℕ → List ℕ → Type 0
IsBefore t [] = Unit
IsBefore t (x ∷ l) = (x ≤ t) × IsBefore t l

IsBefore-mono : (t u : ℕ) (l : List ℕ) → t ≤ u → IsBefore t l → IsBefore u l
IsBefore-mono t u [] h b = tt
IsBefore-mono t u (x ∷ l) h b = (omega (arith, b.0), IsBefore-mono t u l h b.1)

IsBefore-snoc : (t : ℕ) (l : List ℕ) → IsBefore t l → IsBefore t (l ++ (t ∷ []))
IsBefore-snoc t [] b = (omega arith, tt)
IsBefore-snoc t (x ∷ l) b = (b.0, IsBefore-snoc t l b.1)

IsOrdered-snoc : (t : ℕ) (l : List ℕ) → IsOrdered l → IsBefore t l → IsOrdered (l ++ (t ∷ []))
IsOrdered-snoc t [] o b = tt
IsOrdered-snoc t (x ∷ []) o b = (b.0, tt)
IsOrdered-snoc t (x ∷ y ∷ l) o b = (o.0, IsOrdered-snoc t (y ∷ l) o.1 b.1)

-- The record holds the granted restarts that are within the window, and no more than are allowed.
record IsGuarded (s : AppState) (t : ℕ) (granted : List ℕ) : Type 0 where
  kept : s.restart_times ≡ drop_old s.spec.restart_window_ms t granted
  few : length s.restart_times ≤ s.spec.max_restarts
  ordered : IsOrdered granted
  before : IsBefore t granted

abbrev after : AppState → ℕ → List ℕ → List ℕ
after s now granted = if (record_restart s now).0 then granted ++ (now ∷ []) else granted

spec-record_restart : (s : AppState) (now : ℕ) → (record_restart s now).1.spec ≡ s.spec
unfolding record_restart
spec-record_restart s now = ground arith

IsOrdered-after :
    (b : Bool) (now : ℕ) (l : List ℕ)
    → IsOrdered l
    → IsBefore now l
    → IsOrdered (if b then l ++ (now ∷ []) else l)
IsOrdered-after true now l o b = IsOrdered-snoc now l o b
IsOrdered-after false now l o b = o

IsBefore-after :
    (b : Bool) (now : ℕ) (l : List ℕ)
    → IsBefore now l
    → IsBefore now (if b then l ++ (now ∷ []) else l)
IsBefore-after true now l b = IsBefore-snoc now l b
IsBefore-after false now l b = b

length-drop_old-le : (w now : ℕ) (l : List ℕ) → length (drop_old w now l) ≤ length l
unfolding drop_old
length-drop_old-le w now [] = omega arith
length-drop_old-le w now (x ∷ l) = ground (arith, length-drop_old-le w now l)

record_restart-IsGuarded :
    (s : AppState) (t now : ℕ) (granted : List ℕ)
    → t ≤ now
    → IsGuarded s t granted
    → IsGuarded (record_restart s now).1 now (after s now granted)
record_restart-IsGuarded s t now granted h v =
    let w = s.spec.restart_window_ms in
    let same = drop_old-drop_old w t now granted h in
    let b = IsBefore-mono t now granted h v.before in
    record {
      kept = unfold record_restart in ground (arith, v.kept, same, drop_old-snoc w now granted);
      few =
          unfold record_restart in
          ground (
            arith,
            v.few,
            length-drop_old-le w now s.restart_times,
            length-append (drop_old w now s.restart_times) (now ∷ []),
          );
      ordered = IsOrdered-after (record_restart s now).0 now granted v.ordered b;
      before = IsBefore-after (record_restart s now).0 now granted b;
    }

attempts-IsGuarded :
    (s : AppState) (t : ℕ) (granted times : List ℕ)
    → IsMonotonic t times
    → IsGuarded s t granted
    → IsGuarded (attempts s granted times).0 (last_time t times) (attempts s granted times).1
unfolding attempts
attempts-IsGuarded s t granted [] m v = v
attempts-IsGuarded s t granted (now ∷ times) m v =
    attempts-IsGuarded (record_restart s now).1 now (after s now granted) times m.1
      (record_restart-IsGuarded s t now granted m.0 v)

spec-attempts : (s : AppState) (granted times : List ℕ) → (attempts s granted times).0.spec ≡ s.spec
unfolding attempts
spec-attempts s granted [] = refl
spec-attempts s granted (now ∷ times) =
    spec-attempts (record_restart s now).1 (after s now granted) times ∙ spec-record_restart s now

-- From a cleared record, over any restart attempts on a clock that never goes back, at most
-- `max_restarts` restarts have been granted within the window that ends at the last attempt.
pub restarts_bounded :
    (s : AppState) (t : ℕ) (times : List ℕ)
    → s.restart_times ≡ []
    → IsMonotonic t times
    → count_recent s.spec.restart_window_ms (last_time t times) (attempts s [] times).1
      ≤ s.spec.max_restarts
restarts_bounded s t times e m =
    let v = attempts-IsGuarded s t [] times m (record {
      kept = unfold drop_old in e;
      few = rw e (omega arith);
      ordered = tt;
      before = tt;
    }) in
    let window = ap (λ (p : AppSpec). p.restart_window_ms) (spec-attempts s [] times) in
    let most = ap (λ (p : AppSpec). p.max_restarts) (spec-attempts s [] times) in
    let recent =
      length-drop_old s.spec.restart_window_ms (last_time t times) (attempts s [] times).1
        v.ordered in
    ground (arith, v.few, v.kept, window, most, recent)
