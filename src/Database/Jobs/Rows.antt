-- ===== src/Database/Jobs/Rows.antt =====
-- What holds of the rows of the table, and how often each has been tried.
use vpsssssskjwjw.Prelude.{
  ℕ, ◌+◌, ◌*◌, ◌≤◌, ◌<◌, ◌≡◌, ◌≢◌, refl, Bool-cases, inl, inr, Bool, true, false, Option, none,
  some, List, [], ◌∷◌, ◌++◌, Text, text_eq, nat_eq, ◌==◌, map, if◌then◌else◌, All, arith,
}
use vpsssssskjwjw.Database.Jobs.{
  Job, queued, running, claim_first, claimed, is_ready, sweep_row, fail_row, succeed, update_id,
  find_id,
}

-- What holds of every row: it has been tried at most `max_attempts` times, 20 at most; a row in the
-- queue has an attempt left, and a row that runs is locked.
pub record IsRow {P : Type 0} (j : Job P) : Type 0 where
  pub bounded : j.attempts ≤ j.max_attempts
  pub limited : j.max_attempts ≤ 20
  pub has_room : j.state ≡ queued → j.attempts < j.max_attempts
  pub locked : j.state ≡ running → j.locked_at ≢ none

-- The ids of the jobs that have been handed out, newest first.
abbrev pub handed_out : {P : Type 0} → Option (Job P) → List ℕ → List ℕ
handed_out none log = log
handed_out (some j) log = j.id ∷ log

unfoldable pub count : ℕ → List ℕ → ℕ
count i [] = 0
count i (j ∷ log) = (if j == i then 1 else 0) + count i log

module _ {P : Type 0} where
  pub sweep_row-IsRow : (lease now : ℕ) (j : Job P) → IsRow j → IsRow (sweep_row lease now j)
  unfolding sweep_row
  sweep_row-IsRow lease now j v = record {
    bounded = ground (arith, v.bounded);
    limited = ground (arith, v.limited);
    has_room = λ q. ground (arith, v.has_room, q);
    locked = λ q. ground (arith, v.locked, q);
  }

  pub claimed-IsRow :
      (kinds : List Text) (now : ℕ) (j : Job P)
      → is_ready kinds now j ≡ true
      → IsRow j
      → IsRow (claimed now j)
  unfolding is_ready claimed
  claimed-IsRow kinds now j r v = record {
    bounded = ground (arith, v.has_room, r);
    limited = v.limited;
    has_room = λ q. absurd (cc q);
    locked = λ q p. cc p;
  }

  pub All-map_sweep :
      (lease now : ℕ) (jobs : List (Job P))
      → All IsRow jobs
      → All IsRow (map (sweep_row lease now) jobs)
  All-map_sweep lease now [] h = tt
  All-map_sweep lease now (j ∷ jobs) h =
      (sweep_row-IsRow lease now j h.0, All-map_sweep lease now jobs h.1)

  pub claim_first-IsRow :
      (kinds : List Text) (now : ℕ) (jobs : List (Job P))
      → All IsRow jobs
      → All IsRow (claim_first kinds now jobs).1
  unfolding claim_first
  claim_first-IsRow kinds now [] h = tt
  claim_first-IsRow kinds now (j ∷ jobs) h = elim (Bool-cases (is_ready kinds now j)) [
    | inl r ↦ rw r (claimed-IsRow kinds now j r h.0, h.1)
    | inr r ↦ rw r (h.0, claim_first-IsRow kinds now jobs h.1)
  ]

  pub update_id-IsRow :
      (i : ℕ) (f : Job P → Job P) (jobs : List (Job P))
      → ((j : Job P) → IsRow j → IsRow (f j))
      → All IsRow jobs
      → All IsRow (update_id i f jobs)
  unfolding update_id
  update_id-IsRow i f [] k h = tt
  update_id-IsRow i f (j ∷ jobs) k h = elim (Bool-cases (j.id == i)) [
    | inl e ↦ rw e (k j h.0, update_id-IsRow i f jobs k h.1)
    | inr e ↦ rw e (h.0, update_id-IsRow i f jobs k h.1)
  ]

  pub succeed-IsRow : (j : Job P) → IsRow j → IsRow (succeed j)
  unfolding succeed
  succeed-IsRow j v = record {
    bounded = v.bounded;
    limited = v.limited;
    has_room = λ q. absurd (cc q);
    locked = λ q. absurd (cc q);
  }

  pub fail_row-IsRow :
      (again : Bool) (error : Text) (delay now : ℕ) (j : Job P)
      → (again ≡ true → j.attempts < j.max_attempts)
      → IsRow j
      → IsRow (fail_row again error delay now j)
  unfolding fail_row
  fail_row-IsRow true error delay now j room v = record {
    bounded = v.bounded;
    limited = v.limited;
    has_room = λ q. room refl;
    locked = λ q. absurd (cc q);
  }
  fail_row-IsRow false error delay now j room v = record {
    bounded = v.bounded;
    limited = v.limited;
    has_room = λ q. absurd (cc q);
    locked = λ q. absurd (cc q);
  }

  -- How many rows have the id, and how often they have been tried.
  unfoldable pub rows_with : ℕ → List (Job P) → ℕ
  rows_with i [] = 0
  rows_with i (j ∷ jobs) = (if j.id == i then 1 else 0) + rows_with i jobs

  unfoldable pub tries : ℕ → List (Job P) → ℕ
  tries i [] = 0
  tries i (j ∷ jobs) = (if j.id == i then j.attempts else 0) + tries i jobs

  pub tries-le :
      (i : ℕ) (jobs : List (Job P)) → All IsRow jobs → tries i jobs ≤ 20 * rows_with i jobs
  unfolding tries rows_with
  tries-le i [] h = omega arith
  tries-le i (j ∷ jobs) h = ground (arith, h.0, tries-le i jobs h.1)

  update_id-absent :
      (i : ℕ) (f : Job P → Job P) (jobs : List (Job P))
      → rows_with i jobs ≡ 0
      → update_id i f jobs ≡ jobs
  unfolding update_id rows_with
  update_id-absent i f [] h = refl
  update_id-absent i f (j ∷ jobs) h = ground (arith, update_id-absent i f jobs)

  -- With one row of the id, an update of that row keeps the rows well-formed if it keeps the row
  -- that is found.
  pub update_found-IsRow :
      (i : ℕ) (f : Job P → Job P) (row : Job P) (jobs : List (Job P))
      → find_id i jobs ≡ some row
      → rows_with i jobs ≤ 1
      → (IsRow row → IsRow (f row))
      → All IsRow jobs
      → All IsRow (update_id i f jobs)
  unfolding update_id find_id rows_with
  update_found-IsRow i f row [] e u k h = absurd (cc e)
  update_found-IsRow i f row (j ∷ jobs) e u k h = elim (Bool-cases (j.id == i)) [
    | inl same ↦
        let found : j ≡ row = ground (arith, e, same) in
        let rest : update_id i f jobs ≡ jobs =
          update_id-absent i f jobs (ground (arith, u, same)) in
        rw (same, rest) (rw (← found) at k h.0, h.1)
    | inr other ↦ rw other (
      h.0,
      update_found-IsRow i f row jobs (ground (arith, e, other)) (ground (arith, u, other)) k h.1,
    )
  ]

  sweep_row-same :
      (lease now : ℕ) (j : Job P)
      → ((sweep_row lease now j).id ≡ j.id) × ((sweep_row lease now j).attempts ≡ j.attempts)
  unfolding sweep_row
  sweep_row-same lease now j = ground arith

  -- Sweeping keeps ids and attempts.
  pub same-map_sweep :
      (i lease now : ℕ) (jobs : List (Job P))
      → (rows_with i (map (sweep_row lease now) jobs) ≡ rows_with i jobs)
        × (tries i (map (sweep_row lease now) jobs) ≡ tries i jobs)
  unfolding rows_with tries
  same-map_sweep i lease now [] = (refl, refl)
  same-map_sweep i lease now (j ∷ jobs) =
      ground (arith, sweep_row-same lease now j, same-map_sweep i lease now jobs)

  pub same-claim_first :
      (i : ℕ) (kinds : List Text) (now : ℕ) (jobs : List (Job P)) (log : List ℕ)
      → (rows_with i (claim_first kinds now jobs).1 ≡ rows_with i jobs)
        × (tries i (claim_first kinds now jobs).1 + count i log
            ≡ tries i jobs + count i (handed_out (claim_first kinds now jobs).0 log))
  unfolding rows_with tries claim_first claimed count
  same-claim_first i kinds now [] log = (refl, refl)
  same-claim_first i kinds now (j ∷ jobs) log =
      ground (arith, same-claim_first i kinds now jobs log)

  pub same-update_id :
      (i k : ℕ) (f : Job P → Job P) (jobs : List (Job P))
      → ((j : Job P) → (f j).id ≡ j.id)
      → ((j : Job P) → (f j).attempts ≡ j.attempts)
      → (rows_with i (update_id k f jobs) ≡ rows_with i jobs)
        × (tries i (update_id k f jobs) ≡ tries i jobs)
  unfolding rows_with tries update_id
  same-update_id i k f [] a b = (refl, refl)
  same-update_id i k f (j ∷ jobs) a b = ground (arith, a j, b j, same-update_id i k f jobs a b)

  pub same-append :
      (i : ℕ) (row : Job P) (jobs : List (Job P))
      → (rows_with i (jobs ++ (row ∷ [])) ≡ rows_with i jobs + (if row.id == i then 1 else 0))
        × (tries i (jobs ++ (row ∷ [])) ≡ tries i jobs + (if row.id == i then row.attempts else 0))
  unfolding rows_with tries
  same-append i row [] = ground arith
  same-append i row (j ∷ jobs) = ground (arith, same-append i row jobs)

  pub All-append :
      (row : Job P) (jobs : List (Job P))
      → IsRow row
      → All IsRow jobs
      → All IsRow (jobs ++ (row ∷ []))
  All-append row [] v h = (v, tt)
  All-append row (j ∷ jobs) v h = (h.0, All-append row jobs v h.1)

  pub fail_row-same :
      (again : Bool) (error : Text) (delay now : ℕ) (j : Job P)
      → ((fail_row again error delay now j).id ≡ j.id)
        × ((fail_row again error delay now j).attempts ≡ j.attempts)
  unfolding fail_row
  fail_row-same true error delay now j = (refl, refl)
  fail_row-same false error delay now j = (refl, refl)
