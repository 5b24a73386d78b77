-- ===== src/Tests/Database.antt =====
-- The queue and the idempotency records of src/titanbox/database.py at concrete inputs.
use vpsssssskjwjw.Prelude.{
  ℕ, arith, ◌+◌, ◌≤◌, ◌≡◌, ◌≢◌, refl, true, false, none, some, List, [], ◌∷◌, All, ltb, codes,
  if◌then◌else◌, ◌⊎◌,
}
use vpsssssskjwjw.Database.Jobs
use vpsssssskjwjw.Database.Jobs.{
  Job, queued, running, is_ready, claimed, claim_first, claim_job, enqueue_job, clamp,
}
use vpsssssskjwjw.Database.Jobs.Rows.{IsRow, count}
use vpsssssskjwjw.Database.Jobs.Attempts.{Call, enqueue, claim, run, empty, run_bounded}
use vpsssssskjwjw.Database.Jobs.Claims.{Claims, IsStuck, claim_first_cases, claim_job-not-IsStuck}
use vpsssssskjwjw.Database.Jobs.Enqueue.{enqueue_job_twice}
use vpsssssskjwjw.Database.Idempotency
use vpsssssskjwjw.Database.Idempotency.{
  new, old, inflight, completed, idempotency_begin, idempotency_complete, idempotency_fail, select,
}
use vpsssssskjwjw.Database.Idempotency.Ledger
use vpsssssskjwjw.Database.Idempotency.Ledger.{IsTable, ledger_of, promises, run-promises}
use vpsssssskjwjw.Database.Idempotency.Laws.{
  idempotency_begin_twice, idempotency_begin_after_complete, idempotency_begin_after_fail,
}

abbrev calls : List (Call ℕ)
calls =
    enqueue (codes "k") (codes "deploy") 0 3 0
    ∷ claim (codes "deploy" ∷ []) 60 10
    ∷ claim (codes "deploy" ∷ []) 60 100000
    ∷ []

run_bounded_example : All IsRow (run calls empty []).0.jobs × (count 1 (run calls empty []).1 ≤ 20)
run_bounded_example = run_bounded calls 1

abbrev job : Job ℕ
job = record {
  id = 1;
  unique_key = codes "k";
  kind = codes "deploy";
  payload = 0;
  state = queued;
  attempts = 0;
  max_attempts = 3;
  available_at = 0;
  locked_at = none;
  last_error = none;
}

abbrev stuck : Job ℕ
stuck = record job {
  id = 2;
  unique_key = codes "l";
  state = running;
  attempts = 3;
  locked_at = some 0;
}

abbrev table : Jobs.Database ℕ
table = record { enabled = true; pool = true; next_id = 3; jobs = stuck ∷ job ∷ [] }

claim_first_cases_example :
    ((j : Job ℕ) × ((claim_first (codes "deploy" ∷ []) 9 (stuck ∷ job ∷ [])).0 ≡ some (claimed 9 j))
      × Claims
          (codes "deploy" ∷ [])
          9
          (stuck ∷ job ∷ [])
          j
          (claim_first (codes "deploy" ∷ []) 9 (stuck ∷ job ∷ [])).1)
    ⊎ (((claim_first (codes "deploy" ∷ []) 9 (stuck ∷ job ∷ [])).0 ≡ none)
        × ((claim_first (codes "deploy" ∷ []) 9 (stuck ∷ job ∷ [])).1 ≡ stuck ∷ job ∷ [])
        × All (λ j. is_ready (codes "deploy" ∷ []) 9 j ≡ false) (stuck ∷ job ∷ []))
claim_first_cases_example = claim_first_cases (codes "deploy" ∷ []) 9 (stuck ∷ job ∷ [])

claim_job-not-IsStuck_example :
    All
      (λ j. ¬ IsStuck (clamp 30 3600 60) 100000 j)
      (claim_job (codes "deploy" ∷ []) 60 100000 table).1.jobs
claim_job-not-IsStuck_example = claim_job-not-IsStuck (codes "deploy") [] 60 100000 table refl

enqueue_job_twice_example :
    let first = enqueue_job (codes "m") (codes "deploy") 4 3 5 table in
    let second = enqueue_job (codes "m") (codes "restore") 6 9 7 first.1 in
    (second.0 ≡ first.0) × (second.0 ≢ none) × (second.1.jobs ≡ first.1.jobs)
enqueue_job_twice_example =
    enqueue_job_twice (codes "m") (codes "deploy") (codes "restore") 4 6 3 9 5 7 table refl

abbrev records : Idempotency.Database
records = record { enabled = true; pool = true; rows = [] }

idempotency_begin_twice_example :
    (idempotency_begin
      (codes "s")
      (codes "e")
      60
      70
      (idempotency_begin (codes "s") (codes "e") 60 10 records).1).0
    ≡ (if ltb 70 (10 + 60) then old inflight else new)
unfolding idempotency_begin select
idempotency_begin_twice_example =
    idempotency_begin_twice (codes "s") (codes "e") 60 60 10 70 records refl refl

idempotency_begin_after_complete_example :
    (idempotency_begin (codes "s") (codes "e") 60 30 (
      idempotency_complete
        (codes "s")
        (codes "e")
        60
        20
        (idempotency_begin (codes "s") (codes "e") 60 10 records).1)).0
    ≡ (if ltb 30 (20 + 60) then old completed else new)
unfolding idempotency_begin select
idempotency_begin_after_complete_example =
    idempotency_begin_after_complete (codes "s") (codes "e") 60 60 60 10 20 30 records refl refl

idempotency_begin_after_fail_example :
    (idempotency_begin (codes "s") (codes "e") 60 30 (
      idempotency_fail
        (codes "s")
        (codes "e")
        (idempotency_begin (codes "s") (codes "e") 60 10 records).1)).0
    ≡ new
unfolding idempotency_begin select
idempotency_begin_after_fail_example =
    idempotency_begin_after_fail (codes "s") (codes "e") 60 60 10 30 records refl refl

abbrev webhook_calls : List Ledger.Call
webhook_calls =
    Ledger.begin (codes "s") (codes "e") 60 10
    ∷ Ledger.complete (codes "s") (codes "e") 60 20
    ∷ Ledger.begin (codes "s") (codes "e") 60 30
    ∷ Ledger.cleanup 100
    ∷ Ledger.begin (codes "s") (codes "e") 60 110
    ∷ []

records-IsTable : IsTable records
unfolding Ledger.rows_at
records-IsTable = record { enabled = refl; pool = refl; keyed = λ s k. omega arith }

run-promises_example :
    ((Ledger.run webhook_calls records).0 ≡ (promises webhook_calls (ledger_of [])).0)
    × (ledger_of (Ledger.run webhook_calls records).1.rows
        ≡ (promises webhook_calls (ledger_of [])).1)
run-promises_example = run-promises webhook_calls records records-IsTable
