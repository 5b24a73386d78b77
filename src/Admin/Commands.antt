-- ===== src/Admin/Commands.antt =====
-- The administrators' commands in src/titanbox/plugins/deploy_admin.py: `_handle_command`, what it
-- freezes before it queues a job (`_resolve_rollback_target`, `_resolve_restore_target`), and
-- `_enqueue_job` and `_spawn_operation`. A reply stands for all its parts, and `View.reads` for the
-- data that a reading command shows: an error of it is the error that asking for the data raises.
use vpsssssskjwjw.Prelude.{
  ℕ, Bool, true, false, ◌||◌, not, Option, none, some, List, [], ◌∷◌, ◌++◌, Text, text_eq, nat_eq,
  ◌==◌, codes, contains, if◌then◌else◌,
}
use vpsssssskjwjw.Prelude.Dict.{Dict, lookup, insert, erase}
use vpsssssskjwjw.Prelude.Result.{Result, ok, err}
use vpsssssskjwjw.Deploy.Paths.{validate_project_name}
use vpsssssskjwjw.Deploy.Rollback.{first_other}
use vpsssssskjwjw.Admin.Action.{return, throw, from_result, modify, ◌>>=◌, ◌>>◌}
use vpsssssskjwjw.Admin.Desk.{
  Policy, AdminLibrary, usage, no_releases, no_such_release, already_active, no_previous, no_backup,
  AdminError, deploy_error, internal_error, Operation, restoring, rolling_back, restarting, Command,
  start, help, whoami, diag, system, security, infra, setup, wake, auth, lock, audit, jobs,
  projects, use_project, status, files, releases, backups, restore, rollback, restart, reply,
  queued_notice, lock_success, audited, enqueued, spawned, Desk, View, Work, emit, complain, send,
  require_privileged, authenticate,
}
use vpsssssskjwjw.Admin.Documents.{named, pick_project}

-- The words that `_handle_command` compares the first word with.
abbrev pub command_names : Dict Text Command
command_names =
    (codes "/start", start)
    ∷ (codes "/help", help)
    ∷ (codes "/whoami", whoami)
    ∷ (codes "/diag", diag)
    ∷ (codes "/system", system)
    ∷ (codes "/security", security)
    ∷ (codes "/infra", infra)
    ∷ (codes "/setup", setup)
    ∷ (codes "/wake", wake)
    ∷ (codes "/auth", auth)
    ∷ (codes "/lock", lock)
    ∷ (codes "/audit", audit)
    ∷ (codes "/jobs", jobs)
    ∷ (codes "/projects", projects)
    ∷ (codes "/use", use_project)
    ∷ (codes "/status", status)
    ∷ (codes "/files", files)
    ∷ (codes "/releases", releases)
    ∷ (codes "/backups", backups)
    ∷ (codes "/restore", restore)
    ∷ (codes "/rollback", rollback)
    ∷ (codes "/restart", restart)
    ∷ []

unfoldable pub command_of : List Text → Option Command
command_of [] = none
command_of (w ∷ ws) = lookup w command_names

-- `parts[1] if len(parts) >= 2 else None`, and the same of the third word.
abbrev pub first_argument : List Text → Option Text
first_argument (c ∷ a ∷ ws) = some a
first_argument _ = none

abbrev pub second_argument : List Text → Option Text
second_argument (c ∷ a ∷ b ∷ ws) = some b
second_argument _ = none

-- `_resolve_rollback_target`
abbrev pub freeze_named : Text → List Text → Text → Result AdminError Text
freeze_named current names release =
    if not (contains names release)
    then err (deploy_error no_such_release)
    else if release == current
    then err (deploy_error already_active)
    else ok release

abbrev pub freeze_first : Option Text → Result AdminError Text
freeze_first none = err (deploy_error no_previous)
freeze_first (some name) = ok name

unfoldable pub resolve_rollback_target :
    List Text → Option Text → Option Text → Result AdminError Text
resolve_rollback_target [] current release = err (deploy_error no_releases)
resolve_rollback_target (n ∷ ns) none release = err (deploy_error no_releases)
resolve_rollback_target (n ∷ ns) (some current) (some release) =
    freeze_named current (n ∷ ns) release
resolve_rollback_target (n ∷ ns) (some current) none = freeze_first (first_other current (n ∷ ns))

abbrev newest_backup : Result AdminError (List Text) → Result AdminError Text
newest_backup (err e) = err e
newest_backup (ok []) = err (deploy_error no_backup)
newest_backup (ok (b ∷ bs)) = ok b

-- `_resolve_restore_target`
unfoldable pub resolve_restore_target : View → Text → Text → Result AdminError Text
resolve_restore_target w project release =
    if not (release == [] || release == codes "latest")
    then ok release
    else newest_backup (w.backups project)

-- The unique key of a job: the bot's name, the update's number and the kind of the job.
abbrev pub job_key : Policy → Text → Text → Text
job_key p number kind = p.bot_name ++ (codes ":" ++ (number ++ (codes ":" ++ kind)))

-- `_enqueue_job`: whether the job is queued.
unfoldable pub enqueue_job : Policy → View → ℕ → Text → Operation → Work Bool
unfolding emit send
enqueue_job p w user key op =
    if not p.persistent_jobs
    then return false
    else if not w.takes_jobs
    then throw internal_error
    else emit (enqueued user key op) >> (send w user queued_notice >> return true)

-- `_spawn_operation`, if no job was queued.
abbrev pub unless_queued : ℕ → Operation → Bool → Work (Unit {0})
unless_queued user op true = return tt
unless_queued user op false = emit (spawned user op)

-- A job if jobs persist, and a task at once if not.
unfoldable pub submit : Policy → View → ℕ → Text → Operation → Operation → Work (Unit {0})
unfolding emit
submit p w user key frozen op = enqueue_job p w user key frozen >>= unless_queued user op

abbrev as_chosen : Result AdminError Text → Result AdminError (Option Text)
as_chosen (err e) = err e
as_chosen (ok name) = ok (some name)

-- What a queued rollback and a queued restoration are to take: frozen only if jobs persist.
abbrev pub queued_rollback : Policy → View → Text → Option Text → Result AdminError (Option Text)
queued_rollback p w project release =
    if p.persistent_jobs
    then as_chosen (resolve_rollback_target (w.releases project) (w.current project) release)
    else ok release

abbrev pub queued_restore : Policy → View → Text → Text → Result AdminError Text
queued_restore p w project release =
    if p.persistent_jobs then resolve_restore_target w project release else ok release

-- Asking for what a reading command shows, and the reply.
unfoldable pub show_data : View → ℕ → Command → List Text → Work (Unit {0})
unfolding send emit
show_data w user c words = from_result (w.reads c words) >> send w user (reply c)

-- The reading commands that are about a project.
unfoldable pub show_project : AdminLibrary → View → ℕ → Command → List Text → Work (Unit {0})
unfolding show_data
show_project L w user c words =
    pick_project L w user (first_argument words) >>= λ project. show_data w user c (project ∷ words)

abbrev pub use_named : AdminLibrary → View → ℕ → Option Text → Work (Unit {0})
use_named L w user none = complain usage
use_named L w user (some name) =
    from_result (named (validate_project_name L.unicode name)) >>= λ project.
    modify (λ d. record d { active_project = insert user project d.active_project })
    >> send w user (reply use_project)

-- `parts[1]` of exactly two words.
abbrev pub lone_argument : List Text → Option Text
lone_argument (c ∷ a ∷ []) = some a
lone_argument _ = none

abbrev pub close_session : ℕ → Desk → Desk
close_session user d = record d { auth_until = erase user d.auth_until }

abbrev pub lock_session : View → ℕ → Work (Unit {0})
lock_session w user =
    modify (close_session user) >> (emit (audited user lock_success) >> send w user (reply lock))

unfoldable pub restore_project :
    AdminLibrary → Policy → View → ℕ → Text → Text → Text → Work (Unit {0})
restore_project L p w user number name release = do
  project ← pick_project L w user (some name)
  chosen ← from_result (queued_restore p w project release)
  submit p w user (job_key p number (codes "restore")) (restoring project chosen)
      (restoring project release)

abbrev pub restore_words : AdminLibrary → Policy → View → ℕ → Text → List Text → Work (Unit {0})
restore_words L p w user number (c ∷ name ∷ []) =
    restore_project L p w user number name (codes "latest")
restore_words L p w user number (c ∷ name ∷ release ∷ []) =
    restore_project L p w user number name release
restore_words L p w user number _ = complain usage

unfoldable pub rollback_words :
    AdminLibrary → Policy → View → ℕ → Text → List Text → Work (Unit {0})
rollback_words L p w user number words = do
  project ← pick_project L w user (first_argument words)
  chosen ← from_result (queued_rollback p w project (second_argument words))
  submit p w user (job_key p number (codes "rollback")) (rolling_back project chosen)
      (rolling_back project (second_argument words))

unfoldable pub restart_words : AdminLibrary → Policy → View → ℕ → Text → List Text → Work (Unit {0})
restart_words L p w user number words = do
  project ← pick_project L w user (first_argument words)
  submit p w user (job_key p number (codes "restart")) (restarting project) (restarting project)

-- `_handle_command` for a command that it knows, at the update of that number.
unfoldable pub run_command :
    AdminLibrary → Policy → View → ℕ → Text → List Text → Command → Work (Unit {0})
run_command L p w user number words start = send w user (reply start)
run_command L p w user number words help = send w user (reply help)
run_command L p w user number words whoami = send w user (reply whoami)
run_command L p w user number words diag = show_data w user diag words
run_command L p w user number words system = show_data w user system words
run_command L p w user number words security = show_data w user security words
run_command L p w user number words infra = show_data w user infra words
run_command L p w user number words setup = send w user (reply setup)
run_command L p w user number words wake = send w user (reply wake)
run_command L p w user number words auth = authenticate L p w user words
run_command L p w user number words lock = lock_session w user
run_command L p w user number words audit =
    require_privileged p w user >> show_data w user audit words
run_command L p w user number words jobs =
    require_privileged p w user >> show_data w user jobs words
run_command L p w user number words projects =
    require_privileged p w user >> show_data w user projects words
run_command L p w user number words use_project =
    require_privileged p w user >> use_named L w user (lone_argument words)
run_command L p w user number words status =
    require_privileged p w user >> show_project L w user status words
run_command L p w user number words files =
    require_privileged p w user >> show_project L w user files words
run_command L p w user number words releases =
    require_privileged p w user >> show_project L w user releases words
run_command L p w user number words backups =
    require_privileged p w user >> show_project L w user backups words
run_command L p w user number words restore =
    require_privileged p w user >> restore_words L p w user number words
run_command L p w user number words rollback =
    require_privileged p w user >> rollback_words L p w user number words
run_command L p w user number words restart =
    require_privileged p w user >> restart_words L p w user number words
