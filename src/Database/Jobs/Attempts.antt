-- ===== src/Database/Jobs/Attempts.antt =====
-- Over any sequence of calls a job is handed to a worker a bounded number of times.
use vpsssssskjwjw.Prelude.{
  ℕ, ◌≤◌, ◌<◌, ◌≡◌, ◌∙◌, ◌&&◌, refl, Bool-cases, Option-cases, inl, inr, Bool, true, false, none,
  some, List, [], ◌∷◌, Text, text_eq, nat_eq, map, All, arith, take,
}
use vpsssssskjwjw.Database.Jobs.{
  Job, queued, Database, enqueue_job, insert_job, claim_job, claim_first, sweep_row, complete_job,
  fail_job, fail_row, succeed, update_id, find_id, find_key, can_retry, clamp,
}
use vpsssssskjwjw.Database.Jobs.Rows.{
  IsRow, handed_out, count, rows_with, tries, All-map_sweep, claim_first-IsRow, update_id-IsRow,
  succeed-IsRow, fail_row-IsRow, tries-le, update_found-IsRow, same-map_sweep, same-claim_first,
  same-update_id, same-append, All-append, fail_row-same,
}

pub data Call (P : Type 0) : Type 0 where
  enqueue : Text → Text → P → ℕ → ℕ → Call P
  claim : List Text → ℕ → ℕ → Call P
  complete : ℕ → Call P
  fail : ℕ → Text → Bool → ℕ → ℕ → Call P

-- The database after a call, and the ids of the jobs that have been handed out, newest first.
unfoldable pub call : {P : Type 0} → Call P → Database P → List ℕ → Database P × List ℕ
call (enqueue key kind payload max_attempts now) db log =
    ((enqueue_job key kind payload max_attempts now db).1, log)
call (claim kinds lease now) db log =
    let (job, db') = claim_job kinds lease now db in (db', handed_out job log)
call (complete i) db log = (complete_job i db, log)
call (fail i error retry delay now) db log = ((fail_job i error retry delay now db).1, log)

unfoldable pub run : {P : Type 0} → List (Call P) → Database P → List ℕ → Database P × List ℕ
run [] db log = (db, log)
run (c ∷ calls) db log = let (db', log') = call c db log in run calls db' log'

module _ {P : Type 0} where
  -- Well-formed rows, one to an id below the sequence, each tried as often as the log has its id.
  pub record IsKept (db : Database P) (log : List ℕ) : Type 0 where
    pub rows : All IsRow db.jobs
    pub unique : (i : ℕ) → rows_with i db.jobs ≤ 1
    pub fresh : (i : ℕ) → db.next_id ≤ i → rows_with i db.jobs ≡ 0
    pub counted : (i : ℕ) → tries i db.jobs ≡ count i log

  abbrev new_job : ℕ → Text → Text → P → ℕ → ℕ → Job P
  new_job i key kind payload max_attempts now = record {
    id = i;
    unique_key = key;
    kind = kind;
    payload = payload;
    state = queued;
    attempts = 0;
    max_attempts = max_attempts;
    available_at = now;
    locked_at = none;
    last_error = none;
  }

  insert_job-IsKept :
      (key kind : Text) (payload : P) (m now : ℕ) (db : Database P) (log : List ℕ)
      → 0 < m
      → m ≤ 20
      → IsKept db log
      → IsKept (insert_job key kind payload m now db).1 log
  unfolding insert_job
  insert_job-IsKept key kind payload m now db log lo hi v =
      let row = new_job db.next_id key kind payload m now in
      let good : IsRow row = record {
        bounded = omega arith;
        limited = hi;
        has_room = λ q. lo;
        locked = λ q. absurd (cc q);
      } in
      elim (Option-cases (find_key key db.jobs)) [
        | inr (old, e) ↦
            rw (e, insert_job)
              (record {
                rows = v.rows;
                unique = v.unique;
                fresh = λ i h. v.fresh i (omega arith);
                counted = v.counted;
              })
        | inl e ↦
            rw (e, insert_job)
              (record {
                rows = All-append row db.jobs good v.rows;
                unique = λ i. ground (arith, v.unique i, v.fresh i, same-append i row db.jobs);
                fresh = λ i h. ground (arith, v.fresh i, same-append i row db.jobs, h);
                counted = λ i. ground (arith, v.counted i, same-append i row db.jobs);
              })
      ]

  -- A change of the rows that keeps their ids.
  IsKept-rows :
      (db db' : Database P) (log log' : List ℕ)
      → IsKept db log
      → All IsRow db'.jobs
      → db'.next_id ≡ db.next_id
      → ((i : ℕ) → rows_with i db'.jobs ≡ rows_with i db.jobs)
      → ((i : ℕ) → tries i db'.jobs ≡ count i log')
      → IsKept db' log'
  IsKept-rows db db' log log' v rows next same counted = record {
    rows = rows;
    unique = λ i. omega (arith, v.unique i, same i);
    fresh = λ i h. omega (arith, v.fresh i (omega arith), same i);
    counted = counted;
  }

  claim_started :
      (kinds : List Text) (lease now : ℕ) (db : Database P) (log : List ℕ)
      → IsKept db log
      → let (job, jobs) = claim_first kinds now (map (sweep_row lease now) db.jobs) in
        IsKept (record db { pool = true; jobs = jobs }) (handed_out job log)
  claim_started kinds lease now db log v =
      let swept = map (sweep_row lease now) db.jobs in
      IsKept-rows db _ log _ v
        (claim_first-IsRow kinds now swept (All-map_sweep lease now db.jobs v.rows)) refl
        (λ i.
          omega (arith, same-map_sweep i lease now db.jobs, same-claim_first i kinds now swept log))
        (λ i. omega (
          arith,
          v.counted i,
          same-map_sweep i lease now db.jobs,
          same-claim_first i kinds now swept log,
        ))

  claim_job-IsKept :
      (kinds : List Text) (lease now : ℕ) (db : Database P) (log : List ℕ)
      → IsKept db log
      → IsKept (claim_job kinds lease now db).1 (handed_out (claim_job kinds lease now db).0 log)
  unfolding claim_job
  claim_job-IsKept [] lease now db log v = elim (Bool-cases db.enabled) [
    | inl e ↦ simp (e, claim_job) (IsKept-rows db _ log log v v.rows refl (λ i. refl) v.counted)
    | inr e ↦ simp (e, claim_job) v
  ]
  claim_job-IsKept (k ∷ ks) lease now db log v = elim (Bool-cases db.enabled) [
    | inl e ↦
        simp (e, claim_job) (simp e at (claim_started (k ∷ ks) (clamp 30 3600 lease) now db log v))
    | inr e ↦ simp (e, claim_job) v
  ]

  complete_job-IsKept :
      (i : ℕ) (db : Database P) (log : List ℕ) → IsKept db log → IsKept (complete_job i db) log
  unfolding complete_job
  complete_job-IsKept i db log v =
      let same = λ (k : ℕ).
        same-update_id k i succeed db.jobs (λ j. unfold succeed in refl)
          (λ j. unfold succeed in refl) in
      elim (Bool-cases (db.enabled && db.pool)) [
        | inl e ↦
            rw (e, complete_job)
              (IsKept-rows db _ log log v (update_id-IsRow i succeed db.jobs succeed-IsRow v.rows)
                refl (λ k. (same k).0) (λ k. (same k).1 ∙ v.counted k))
        | inr e ↦ rw (e, complete_job) v
      ]

  fail_found :
      (i : ℕ) (message : Text) (retry : Bool) (delay now : ℕ) (row : Job P) (db : Database P)
      (log : List ℕ)
      → find_id i db.jobs ≡ some row
      → IsKept db log
      → IsKept
          (record db {
            jobs = update_id i (fail_row (can_retry retry row) message delay now) db.jobs;
          })
          log
  fail_found i message retry delay now row db log e v =
      let again = can_retry retry row in
      let f : Job P → Job P = fail_row again message delay now in
      let same = λ (k : ℕ).
        same-update_id k i f db.jobs (λ j. (fail_row-same again message delay now j).0)
          (λ j. (fail_row-same again message delay now j).1) in
      IsKept-rows db _ log log v
        (update_found-IsRow i f row db.jobs e (v.unique i)
          (fail_row-IsRow again message delay now row (λ h. ground (arith, h))) v.rows)
        refl (λ k. (same k).0) (λ k. (same k).1 ∙ v.counted k)

  fail_job-IsKept :
      (i : ℕ) (error : Text) (retry : Bool) (delay now : ℕ) (db : Database P) (log : List ℕ)
      → IsKept db log
      → IsKept (fail_job i error retry delay now db).1 log
  unfolding fail_job
  fail_job-IsKept i error retry delay now db log v = elim (Bool-cases (db.enabled && db.pool)) [
    | inr e ↦ rw (e, fail_job) v
    | inl e ↦ elim (Option-cases (find_id i db.jobs)) [
      | inl absent ↦ rw (e, fail_job, absent) v
      | inr (row, found) ↦ rw (e, fail_job, found) (fail_found i _ retry _ now row db log found v)
    ]
  ]

  enqueue_job-IsKept :
      (key kind : Text) (payload : P) (m now : ℕ) (db : Database P) (log : List ℕ)
      → IsKept db log
      → IsKept (enqueue_job key kind payload m now db).1 log
  unfolding enqueue_job
  enqueue_job-IsKept key kind payload m now db log v = elim (Bool-cases db.enabled) [
    | inl e ↦
        simp (e, enqueue_job)
          (insert_job-IsKept (take 200 key) (take 80 kind) payload (clamp 1 20 m) now db log
            (omega arith) (omega arith) v)
    | inr e ↦ simp (e, enqueue_job) v
  ]

  call-IsKept :
      (c : Call P) (db : Database P) (log : List ℕ)
      → IsKept db log
      → IsKept (call c db log).0 (call c db log).1
  unfolding call
  call-IsKept (enqueue key kind payload m now) db log v =
      enqueue_job-IsKept key kind payload m now db log v
  call-IsKept (claim kinds lease now) db log v = claim_job-IsKept kinds lease now db log v
  call-IsKept (complete i) db log v = complete_job-IsKept i db log v
  call-IsKept (fail i error retry delay now) db log v =
      fail_job-IsKept i error retry delay now db log v

  pub run-IsKept :
      (calls : List (Call P)) (db : Database P) (log : List ℕ)
      → IsKept db log
      → IsKept (run calls db log).0 (run calls db log).1
  unfolding run
  run-IsKept [] db log v = v
  run-IsKept (c ∷ calls) db log v = run-IsKept calls _ _ (call-IsKept c db log v)

  abbrev pub empty : Database P
  empty = record { enabled = true; pool = false; next_id = 1; jobs = [] }

  -- From an empty table, over any sequence of calls of the queue's methods with any clock readings,
  -- each row stays well-formed and no job is handed to a worker more than twenty times.
  pub run_bounded :
      (calls : List (Call P)) (i : ℕ)
      → All IsRow (run calls empty []).0.jobs × (count i (run calls empty []).1 ≤ 20)
  run_bounded calls i =
      let v = run-IsKept calls empty [] (record {
        rows = tt;
        unique = λ k. unfold rows_with in omega arith;
        fresh = λ k h. unfold rows_with in refl;
        counted = λ k. unfold tries count in refl;
      }) in
      (v.rows, omega (arith, v.counted i, v.unique i, tries-le i _ v.rows))
