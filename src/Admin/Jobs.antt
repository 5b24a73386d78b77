-- ===== src/Admin/Jobs.antt =====
-- The worker of the durable jobs in src/titanbox/plugins/deploy_admin.py: `_process_job` and a round
-- of `_job_worker`, over the table of src/titanbox/database.py. What the work itself does is a
-- parameter here, by the error that it ends with; the messages to the chat of a job cannot fail it, the
-- database answers each call, and the worker is not cancelled within a round.
pub mod Settled
use vpsssssskjwjw.Prelude.{
  ℕ, ◌^◌, min, Bool, true, false, ◌&&◌, not, Option, none, some, List, [], ◌∷◌, Text, text_eq,
  nat_eq, ◌==◌, codes, contains, ltb, if◌then◌else◌,
}
use vpsssssskjwjw.Prelude.Result.{Result, ok, err}
use vpsssssskjwjw.Database.Jobs.{
  Job, JobState, queued, succeeded, failed, Database, claim_job, complete_job, fail_job,
}
use vpsssssskjwjw.Admin.Desk.{
  Policy, AdminError, deploy_error, internal_error, invalid_payload, unknown_kind, Upload,
  Operation, handle_document, restoring, rolling_back, restarting,
}

-- What `_process_job` reads of a payload: `actor_id` if it is a natural number, whether `chat_id` is a
-- chat, and the rest if it is there.
pub record JobPayload : Type 0 where
  pub actor_id : Option ℕ
  pub has_chat : Bool
  pub message : Option Upload
  pub project : Option Text
  pub release : Option Text

-- The work of a job, and the words of an error.
pub record JobLibrary : Type 0 where
  pub perform : Operation → Result AdminError (Unit {0})
  pub describe : AdminError → Text

abbrev pub job_kinds : List Text
job_kinds = codes "document" ∷ codes "rollback" ∷ codes "restart" ∷ codes "restore" ∷ []

-- `actor_id not in self.admin_ids`, and the two tests of types.
abbrev is_admin : Policy → Option ℕ → Bool
is_admin p none = false
is_admin p (some actor) = contains p.admin_ids actor

abbrev pub may_run : Policy → JobPayload → Bool
may_run p payload = is_admin p payload.actor_id && payload.has_chat

abbrev pub document_work : Option Upload → Result AdminError Operation
document_work none = err (deploy_error invalid_payload)
document_work (some message) = ok (handle_document message)

-- `payload["project"]`, which raises a `KeyError` if it is missing.
abbrev pub project_work : (Text → Operation) → Option Text → Result AdminError Operation
project_work op none = err internal_error
project_work op (some project) = ok (op project)

-- `payload.get("release") or "latest"`
abbrev pub or_latest : Option Text → Text
or_latest (some (c ∷ s)) = c ∷ s
or_latest _ = codes "latest"

unfoldable pub work_of : Text → JobPayload → Result AdminError Operation
work_of kind payload =
    if kind == codes "document"
    then document_work payload.message
    else if kind == codes "rollback"
    then project_work (λ project. rolling_back project payload.release) payload.project
    else if kind == codes "restart"
    then project_work restarting payload.project
    else if kind == codes "restore"
    then project_work (λ project. restoring project (or_latest payload.release)) payload.project
    else err (deploy_error unknown_kind)

abbrev performed : JobLibrary → Result AdminError Operation → Result AdminError (Unit {0})
performed L (err e) = err e
performed L (ok op) = L.perform op

unfoldable pub run_job : JobLibrary → Job JobPayload → Result AdminError (Unit {0})
run_job L job = performed L (work_of job.kind job.payload)

-- `min(60, 2 ** min(attempts, 5))`, where no attempt counts as one.
unfoldable pub retry_delay : ℕ → ℕ
retry_delay attempts = min 60 (2 ^ min (if attempts == 0 then 1 else attempts) 5)

-- The call of the database that follows the work.
abbrev pub settle_job :
    JobLibrary
    → ℕ
    → Job JobPayload
    → Result AdminError (Unit {0})
    → Database JobPayload
    → Database JobPayload
settle_job L now job (ok done) db = complete_job job.id db
settle_job L now job (err (deploy_error c)) db =
    (fail_job job.id (L.describe (deploy_error c)) false 5 now db).1
settle_job L now job (err internal_error) db =
    (fail_job job.id (L.describe internal_error) true (retry_delay job.attempts) now db).1

unfoldable pub process_job :
    JobLibrary → Policy → ℕ → Job JobPayload → Database JobPayload → Database JobPayload
process_job L p now job db =
    if not (may_run p job.payload)
    then (fail_job job.id (codes "admin is no longer authorized") false 5 now db).1
    else settle_job L now job (run_job L job) db

abbrev after_claim :
    JobLibrary → Policy → ℕ → Option (Job JobPayload) × Database JobPayload → Database JobPayload
after_claim L p later (none, db) = db
after_claim L p later (some job, db) = process_job L p later job db

-- A round of `_job_worker`: a claim now, and the end of the work later.
unfoldable pub work_once : JobLibrary → Policy → ℕ → ℕ → Database JobPayload → Database JobPayload
work_once L p now later db = after_claim L p later (claim_job job_kinds 600 now db)
