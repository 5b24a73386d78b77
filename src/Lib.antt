-- ===== src/Lib.antt =====
-- TitanBox, the control plane of Telegram bots under src/titanbox: what it does between its calls of
-- the network, the disk, the database server and the processes that it watches.
--
-- Parts of the program, and the files that model them:
-- - src/titanbox/security.py: Security/TokenBucket (the rate limit of a bot), Security/FailureCircuit
--   (its circuit breaker) and Security/Totp (`_decode_base32`, `totp_code`, `verify_totp`).
-- - src/titanbox/telegram.py: Telegram/Dedup (`UpdateDeduplicator`), Telegram/Hub (`handle` of
--   `TelegramHub`: `gate` is the part up to the deduplicator, `enter` takes the slots, `leave` is what
--   follows the plugin's handler), Telegram/Specs (the descriptors of the bots and their
--   limits; Telegram/Specs/Started has what a start leaves), Telegram/Webhooks (the registration of
--   webhooks, the refresh and the watchdog, over the answers of Telegram) and Telegram/Hub/Reading (the request and its body). The hub uses
--   the bucket, the circuit and the deduplicator of each bot.
-- - src/titanbox/database.py: Database/Jobs (the queue of jobs) and Database/Idempotency
--   (Database/Idempotency/Ledger is the map that its table stands for). A table is a list of rows,
--   and each method is one transaction.
-- - src/titanbox/runner.py: Runner (`AppRunner`: the monitor, its restart guard, `wait_healthy`).
-- - src/titanbox/deploy.py: Deploy/Paths (the names and paths from outside), Deploy/Archive (the
--   extraction of a ZIP and the check of the tree), Deploy/Manifest (the integrity manifest), Deploy/Project (releases, the
--   symlink, activation, restore, pruning), Deploy/Finalize (`_finalize_release`,
--   `_resume_idempotent_current`, `deploy_zip`, `put_file`), Deploy/Rollback (`rollback`),
--   Deploy/Runs (sequences of these) and Deploy/Restore (`deploy_zip` from the bytes of an archive
--   on, and `restore_backup` over the durable store). Calls of the runner and of the durable store fare as an
--   argument of type `World` says, so a theorem holds however they fare.
-- - src/titanbox/storage.py: Storage, Storage/Markers, Storage/Releases and Storage/Latest
--   (`DurableReleaseStore`), over a dictionary of objects whose calls may fail.
-- - src/titanbox/audit.py: Audit (`AuditLog`) over the lines of the log.
-- - src/titanbox/settings.py and src/titanbox/auth.py: Settings (`validate`, `require_admin_token`).
-- - src/titanbox/plugins/deploy_admin.py: Admin/Action (methods over the plugin's state), Admin/Desk
--   (that state, what leaves the plugin, the second factor), Admin/Documents (uploads and their
--   canonical form), Admin/Commands, Admin/Handle (`handle`) and Admin/Jobs (the worker of the
--   jobs, over Database/Jobs). Admin/Freeze joins the plugin to Deploy/Rollback, and Admin/Recover
--   (`_do_rollback`) to Deploy/Rollback, Deploy/Restore and Storage.
-- - src/titanbox/infrastructure.py: Infrastructure. src/titanbox/main.py: Http, over Infrastructure,
--   Telegram/Webhooks and Settings.
-- Prelude has what these share: tests, texts as lists of code points, dictionaries and results.
-- Tests has each theorem at a concrete input.
--
-- Units and bounds: times are natural numbers of milliseconds (seconds in the database and for the
-- codes), and a token of the bucket is 60000 units, so that a rate per minute divides without a
-- remainder. Between two awaits the clock is read once. The decimal digits of n are taken on n + 1
-- steps of fuel, which is more than the digits of n.
--
-- Parameters: JSON, HMAC, SHA-256, Base32, Unicode properties of characters, `shlex`, the listing of
-- the object store, the entries of a ZIP, the answers of Telegram, whether a plugin loads, and
-- for the worker of the jobs the error that the work itself ends with. An identifier of an administrator
-- is a natural number, a private chat has the number of its user, and an update of the plugin is
-- handled at one reading of the clock. Not modelled: HTTP calls and pages, spawning of processes,
-- file copies, migrations and the connection pool, log redaction, reading the environment, the
-- texts of replies, and the scripts.
-- A call of the object store fares alike for all calls of one method, and one that fails changes
-- nothing; the replacement of the symlink does not fail. The
-- wait for the two slots of a request is one step. The worker of the jobs is not cancelled within a
-- round, and the database answers its calls. `stop_app` is left out: it is the end of a process.
pub mod Prelude
pub mod Security
pub mod Telegram
pub mod Database
pub mod Runner
pub mod Audit
pub mod Deploy
pub mod Storage
pub mod Settings
pub mod Admin
pub mod Infrastructure
pub mod Http
pub mod Tests
