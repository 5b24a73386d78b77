-- ===== src/Database/Jobs.antt =====
-- The persistent job queue of `PostgresDatabase` in src/titanbox/database.py. Each method is one
-- transaction on the table `titanbox_jobs`, whose rows stand in the order of their ids. Times are
-- seconds, `now` is `NOW()` of the transaction. The columns `created_at` and `updated_at` are left
-- out: no statement reads them. A payload is only stored and returned, so its type is a parameter.
pub mod Rows
pub mod Attempts
pub mod Claims
pub mod Enqueue
use vpsssssskjwjw.Prelude.{
  ℕ, ◌+◌, ◌-◌, min, max, Bool, true, false, ◌&&◌, not, Option, none, some, List, [], ◌∷◌, ◌++◌,
  Text, text_eq, nat_eq, ◌==◌, contains, codes, ltb, leb, take, map, reverse, if◌then◌else◌,
}

pub data JobState : Type 0 where
  queued running succeeded failed : JobState

pub record Job (Payload : Type 0) : Type 0 where
  pub id : ℕ
  pub unique_key : Text
  pub kind : Text
  pub payload : Payload
  pub state : JobState
  pub attempts : ℕ
  pub max_attempts : ℕ
  pub available_at : ℕ
  pub locked_at : Option ℕ
  pub last_error : Option Text

-- `enabled` is whether a DSN is configured, `pool` whether the pool has been started. `next_id` is
-- the sequence behind `BIGSERIAL`.
pub record Database (Payload : Type 0) : Type 0 where
  pub enabled : Bool
  pub pool : Bool
  pub next_id : ℕ
  pub jobs : List (Job Payload)

abbrev is_queued : JobState → Bool
is_queued queued = true
is_queued _ = false

-- `locked_at < NOW() - lease`, which is not true of NULL.
unfoldable pub is_expired : ℕ → ℕ → Option ℕ → Bool
is_expired lease now none = false
is_expired lease now (some t) = ltb (t + lease) now

-- `COALESCE(last_error, message)`
abbrev coalesce : Option Text → Text → Option Text
coalesce none message = some message
coalesce (some e) message = some e

-- `min(max(low, n), high)`
abbrev pub clamp : ℕ → ℕ → ℕ → ℕ
clamp low high n = min (max low n) high

abbrev pub newlines_to_spaces : Text → Text
newlines_to_spaces = map (λ c. if c == 10 then 32 else c)

module _ {P : Type 0} where
  -- The first row with the unique key.
  unfoldable pub find_key : Text → List (Job P) → Option (Job P)
  find_key key [] = none
  find_key key (j ∷ jobs) = if j.unique_key == key then some j else find_key key jobs

  -- `INSERT … ON CONFLICT(unique_key) DO UPDATE SET unique_key=EXCLUDED.unique_key RETURNING …`:
  -- a conflict returns the old row; the sequence advances either way.
  unfoldable pub insert_job : Text → Text → P → ℕ → ℕ → Database P → Job P × Database P
  insert_job key kind payload max_attempts now db =
      let db' = record db { pool = true; next_id = db.next_id + 1 } in
      elim (find_key key db.jobs) [
        | some old ↦ (old, db')
        | none ↦
            let row : Job P = record {
              id = db.next_id;
              unique_key = key;
              kind = kind;
              payload = payload;
              state = queued;
              attempts = 0;
              max_attempts = max_attempts;
              available_at = now;
              locked_at = none;
              last_error = none;
            } in
            (row, record db' { jobs = db.jobs ++ (row ∷ []) })
      ]

  -- `none` is the `DatabaseError` of a queue without a DSN.
  unfoldable pub enqueue_job : Text → Text → P → ℕ → ℕ → Database P → Option (Job P) × Database P
  enqueue_job key kind payload max_attempts now db =
      let (row, db') =
        insert_job (take 200 key) (take 80 kind) payload (clamp 1 20 max_attempts) now db in
      if db.enabled then (some row, db') else (none, db)

  -- What the first two statements of `claim_job` make of a row that runs past its lease: back to the
  -- queue, or failed if that was its final attempt.
  unfoldable pub sweep_row : ℕ → ℕ → Job P → Job P
  sweep_row lease now j = elim j.state [
    | running ↦
        if is_expired lease now j.locked_at
        then (if ltb j.attempts j.max_attempts
            then record j {
              state = queued;
              locked_at = none;
              available_at = now;
              last_error = coalesce j.last_error (codes "worker lease expired");
            }
            else record j {
              state = failed;
              locked_at = none;
              last_error = coalesce j.last_error (codes "worker lease expired on final attempt");
            })
        else j
    | _ ↦ j
  ]

  -- The `WHERE` clause of the selection.
  unfoldable pub is_ready : List Text → ℕ → Job P → Bool
  is_ready kinds now j = is_queued j.state && leb j.available_at now && contains kinds j.kind

  -- The update of the selected row.
  unfoldable pub claimed : ℕ → Job P → Job P
  claimed now j = record j { state = running; attempts = j.attempts + 1; locked_at = some now }

  -- `ORDER BY id LIMIT 1`, and the update of that row.
  unfoldable pub claim_first : List Text → ℕ → List (Job P) → Option (Job P) × List (Job P)
  claim_first kinds now [] = (none, [])
  claim_first kinds now (j ∷ jobs) =
      let (job, rest) = claim_first kinds now jobs in
      if is_ready kinds now j then (some (claimed now j), claimed now j ∷ jobs) else (job, j ∷ rest)

  -- `if not kinds: return None` stands behind the start of the pool.
  unfoldable pub claim_job : List Text → ℕ → ℕ → Database P → Option (Job P) × Database P
  claim_job kinds lease_seconds now db =
      let lease = clamp 30 3600 lease_seconds in
      let (job, jobs) = claim_first kinds now (map (sweep_row lease now) db.jobs) in
      let started = record db { pool = true } in
      if not db.enabled
      then (none, db)
      else elim kinds [ [] ↦ (none, started) | k ∷ ks ↦ (job, record started { jobs = jobs }) ]

  -- `UPDATE titanbox_jobs SET … WHERE id=$1`
  unfoldable pub update_id : ℕ → (Job P → Job P) → List (Job P) → List (Job P)
  update_id i f [] = []
  update_id i f (j ∷ jobs) = (if j.id == i then f j else j) ∷ update_id i f jobs

  unfoldable pub succeed : Job P → Job P
  succeed j = record j { state = succeeded; locked_at = none; last_error = none }

  unfoldable pub complete_job : ℕ → Database P → Database P
  complete_job i db =
      if db.enabled && db.pool then record db { jobs = update_id i succeed db.jobs } else db

  unfoldable pub find_id : ℕ → List (Job P) → Option (Job P)
  find_id i [] = none
  find_id i (j ∷ jobs) = if j.id == i then some j else find_id i jobs

  abbrev pub can_retry : Bool → Job P → Bool
  can_retry retry j = retry && ltb j.attempts j.max_attempts

  -- One of the two updates at the end of `fail_job`; `error` has been cut to 500 characters.
  unfoldable pub fail_row : Bool → Text → ℕ → ℕ → Job P → Job P
  fail_row true error delay now j = record j {
    state = queued;
    locked_at = none;
    last_error = some error;
    available_at = now + delay;
  }
  fail_row false error delay now j = record j {
    state = failed;
    locked_at = none;
    last_error = some error;
  }

  unfoldable pub fail_job : ℕ → Text → Bool → ℕ → ℕ → Database P → JobState × Database P
  fail_job i error retry retry_delay now db =
      let message = take 500 (newlines_to_spaces error) in
      let delay = clamp 1 900 retry_delay in
      if db.enabled && db.pool
      then elim (find_id i db.jobs) [
        | none ↦ (failed, db)
        | some row ↦
            let again = can_retry retry row in
            (
              (if again then queued else failed),
              record db { jobs = update_id i (fail_row again message delay now) db.jobs },
            )
      ]
      else (failed, db)

  -- `ORDER BY id DESC LIMIT`
  unfoldable pub recent_jobs : ℕ → Database P → List (Job P)
  recent_jobs limit db = if db.enabled then take (clamp 1 100 limit) (reverse db.jobs) else []
