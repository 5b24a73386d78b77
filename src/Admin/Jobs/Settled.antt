-- ===== src/Admin/Jobs/Settled.antt =====
-- What has become of a job after `_process_job` of src/titanbox/plugins/deploy_admin.py.
use vpsssssskjwjw.Prelude.{
  ℕ, ◌+◌, ◌≤◌, zero, suc, max, take, ℕ_discrete, ◌≡◌, refl, ap, codes, map, Bool, true, false, some,
  List, [], ◌∷◌, Text, text_eq, nat_eq, ◌==◌, ltb, if◌then◌else◌, Bool-cases, inl, inr, arith, min,
}
use vpsssssskjwjw.Prelude.Result.{Result, ok, err}
use vpsssssskjwjw.Database.Jobs.{
  Job, JobState, queued, succeeded, failed, Database, claim_job, claim_first, claimed, is_ready,
  sweep_row, complete_job, fail_job, find_id, update_id, succeed, fail_row, can_retry, clamp,
  newlines_to_spaces,
}
use vpsssssskjwjw.Database.Jobs.Rows.{rows_with, same-map_sweep}
use vpsssssskjwjw.Admin.Desk.{Policy, AdminError, deploy_error, internal_error}
use vpsssssskjwjw.Admin.Jobs.{
  JobPayload, JobLibrary, may_run, run_job, retry_delay, settle_job, process_job, job_kinds,
  work_once,
}

-- Where a job is to be: failed if it is refused, and back in the queue only after an error that is
-- no refusal and with an attempt left.
abbrev pub end_of : Job JobPayload → Result AdminError (Unit {0}) → JobState
end_of job (ok done) = succeeded
end_of job (err (deploy_error c)) = failed
end_of job (err internal_error) = if ltb job.attempts job.max_attempts then queued else failed

abbrev pub final_state : JobLibrary → Policy → Job JobPayload → JobState
final_state L p job = if may_run p job.payload then end_of job (run_job L job) else failed

find-update_id :
    {P : Type 0} (i : ℕ) (f : Job P → Job P) (jobs : List (Job P)) (j : Job P)
    → ((k : Job P) → (f k).id ≡ k.id)
    → find_id i jobs ≡ some j
    → find_id i (update_id i f jobs) ≡ some (f j)
unfolding find_id update_id
find-update_id i f [] j e h = absurd (cc h)
find-update_id i f (k ∷ jobs) j e h = ground (arith, h, e k, find-update_id i f jobs j e)

first_delays :
    (retry_delay 0 ≡ 2)
    × (retry_delay 1 ≡ 2)
    × (retry_delay 2 ≡ 4)
    × (retry_delay 3 ≡ 8)
    × (retry_delay 4 ≡ 16)
unfolding retry_delay ℕ_discrete
first_delays = (refl, refl, refl, refl, refl)

later_delays : (n : ℕ) → 5 ≤ n → retry_delay n ≡ 32
unfolding retry_delay
later_delays n h =
    let z : (n == 0) ≡ false = ground (arith, h) in
    let m : min n 5 ≡ 5 = omega arith in simp (z, m) refl

retry_delay_bounds : (attempts : ℕ) → (2 ≤ retry_delay attempts) × (retry_delay attempts ≤ 32)
retry_delay_bounds zero = (omega (arith, first_delays.0), omega (arith, first_delays.0))
retry_delay_bounds (suc zero) = (omega (arith, first_delays.1), omega (arith, first_delays.1))
retry_delay_bounds (suc (suc zero)) = (omega (arith, first_delays.2), omega (arith, first_delays.2))
retry_delay_bounds (suc (suc (suc zero))) =
    (omega (arith, first_delays.3), omega (arith, first_delays.3))
retry_delay_bounds (suc (suc (suc (suc zero)))) =
    (omega (arith, first_delays.4), omega (arith, first_delays.4))
retry_delay_bounds (suc (suc (suc (suc (suc n))))) =
    let e = later_delays (suc (suc (suc (suc (suc n))))) (omega arith) in
    (omega (arith, e), omega (arith, e))

-- A row that is in the state, tried as often as the job, and ready at most 32 seconds from now.
pub record IsSettled (now : ℕ) (job : Job JobPayload) (final : JobState) (row : Job JobPayload)
    : Type 0 where
  pub state : row.state ≡ final
  pub attempts : row.attempts ≡ job.attempts
  pub soon : row.available_at ≤ max job.available_at (now + 32)

module _ (L : JobLibrary) (p : Policy) (now : ℕ) (job : Job JobPayload) (db : Database JobPayload)
    (enabled : db.enabled ≡ true) (pool : db.pool ≡ true)
    (found : find_id job.id db.jobs ≡ some job) where
  complete_settles :
      (row : Job JobPayload) × (find_id job.id (complete_job job.id db).jobs ≡ some row)
      × IsSettled now job succeeded row
  unfolding complete_job succeed
  complete_settles = (
    succeed job,
    ground (arith, enabled, pool, find-update_id job.id succeed db.jobs job (λ k. refl) found),
    record { state = refl; attempts = refl; soon = omega arith },
  )

  fail_settles :
      (error : Text) (retry : Bool) (delay : ℕ)
      → delay ≤ 32
      → (row : Job JobPayload) × (find_id job.id (fail_job job.id error retry delay now db).1.jobs
          ≡ some row)
        × IsSettled now job (if can_retry retry job then queued else failed) row
  unfolding fail_job fail_row
  fail_settles error retry delay le = (
    fail_row (can_retry retry job) (take 500 (newlines_to_spaces error)) (clamp 1 900 delay) now
        job,
    ground (
      arith,
      enabled,
      pool,
      found,
      find-update_id job.id
          (fail_row (can_retry retry job) (take 500 (newlines_to_spaces error)) (clamp 1 900 delay)
            now)
          db.jobs job (λ k. ground arith) found,
    ),
    record { state = ground arith; attempts = ground arith; soon = ground (arith, le) },
  )

  settle_job_settles :
      (r : Result AdminError (Unit {0}))
      → (row : Job JobPayload) × (find_id job.id (settle_job L now job r db).jobs ≡ some row)
        × IsSettled now job (end_of job r) row
  settle_job_settles (ok done) = complete_settles
  settle_job_settles (err (deploy_error c)) =
      fail_settles (L.describe (deploy_error c)) false 5 (omega arith)
  settle_job_settles (err internal_error) =
      fail_settles (L.describe internal_error) true (retry_delay job.attempts)
        (retry_delay_bounds job.attempts).1

  process_job_settles :
      (row : Job JobPayload) × (find_id job.id (process_job L p now job db).jobs ≡ some row)
      × IsSettled now job (final_state L p job) row
  unfolding process_job
  process_job_settles = elim (Bool-cases (may_run p job.payload)) [
    | inl m ↦ simp (m) (settle_job_settles (run_job L job))
    | inr m ↦ simp (m) (fail_settles (codes "admin is no longer authorized") false 5 (omega arith))
  ]

claim_first-rows_with :
    {P : Type 0} (kinds : List Text) (now : ℕ) (jobs : List (Job P)) (job : Job P)
    → (claim_first kinds now jobs).0 ≡ some job
    → 1 ≤ rows_with job.id jobs
unfolding claim_first rows_with claimed
claim_first-rows_with kinds now [] job h = absurd (cc h)
claim_first-rows_with kinds now (j ∷ jobs) job h = elim (Bool-cases (is_ready kinds now j)) [
  | inl r ↦
      let e : claimed now j ≡ job = ground (arith, h, r) in
      let i : j.id ≡ job.id = ap (λ k. k.id) e in ground (arith, i)
  | inr r ↦
      let k = claim_first-rows_with kinds now jobs job (ground (arith, h, r)) in ground (arith, k)
]

find-claim_first :
    {P : Type 0} (kinds : List Text) (now : ℕ) (jobs : List (Job P)) (job : Job P)
    → (claim_first kinds now jobs).0 ≡ some job
    → rows_with job.id jobs ≤ 1
    → find_id job.id (claim_first kinds now jobs).1 ≡ some job
unfolding claim_first find_id rows_with claimed
find-claim_first kinds now [] job h u = absurd (cc h)
find-claim_first kinds now (j ∷ jobs) job h u = elim (Bool-cases (is_ready kinds now j)) [
  | inl r ↦
      let e : claimed now j ≡ job = ground (arith, h, r) in
      let i : j.id ≡ job.id = ap (λ k. k.id) e in ground (arith, h, r, i)
  | inr r ↦
      let t : (claim_first kinds now jobs).0 ≡ some job = ground (arith, h, r) in
      ground (
        arith,
        t,
        r,
        u,
        claim_first-rows_with kinds now jobs job t,
        find-claim_first kinds now jobs job t,
      )
]

-- After a round of the worker that is not cancelled, on a table that answers and has at most one row to
-- an id, a job that it claimed, of any kind, is done if its administrator is still one and the work succeeded, is back in the queue only if the work broke down without a
-- refusal and attempts are left, ready again at most 32 seconds later, and has failed otherwise.
pub work_once_settles :
    (L : JobLibrary) (p : Policy) (now later : ℕ) (db : Database JobPayload) (job : Job JobPayload)
    → db.enabled ≡ true
    → ((i : ℕ) → rows_with i db.jobs ≤ 1)
    → (claim_job job_kinds 600 now db).0 ≡ some job
    → (row : Job JobPayload) × (find_id job.id (work_once L p now later db).jobs ≡ some row)
      × IsSettled later job (final_state L p job) row
unfolding work_once claim_job
work_once_settles L p now later db job enabled unique h =
    let swept = map (sweep_row 600 now) db.jobs in
    let c : (claim_first job_kinds now swept).0 ≡ some job = ground (arith, h, enabled) in
    let u : rows_with job.id swept ≤ 1 =
      ground (arith, same-map_sweep job.id 600 now db.jobs, unique job.id) in
    let f = find-claim_first job_kinds now swept job c u in
    simp (enabled, c)
      (process_job_settles L p later job
        (record db { enabled = true; pool = true; jobs = (claim_first job_kinds now swept).1 }) refl
        refl f)
