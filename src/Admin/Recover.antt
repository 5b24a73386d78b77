-- ===== src/Admin/Recover.antt =====
-- `_do_rollback` of src/titanbox/plugins/deploy_admin.py: a rollback, and for a queued one whose release
-- is no longer on the disk the restoration of its backup; with `list_backups` of
-- src/titanbox/deploy.py. The messages to the chat cannot fail a queued rollback.
pub mod Laws
use vpsssssskjwjw.Prelude.{
  ℕ, Bool, true, false, ◌||◌, not, Option, none, some, List, [], ◌∷◌, Text, text_eq, contains,
  if◌then◌else◌,
}
use vpsssssskjwjw.Prelude.Result.{Result, ok, err}
use vpsssssskjwjw.Deploy.Paths.{validate_project_name, PathError}
use vpsssssskjwjw.Deploy.Archive.{Limits}
use vpsssssskjwjw.Deploy.Project.{Project, World, DeployError, DeployResult, Outcome}
use vpsssssskjwjw.Deploy.Rollback.{rollback}
use vpsssssskjwjw.Deploy.Restore.{
  ArchiveLibrary, RestoreError, invalid_name, durable_restore_failed, deployment_failed,
  Restoration, restore_backup,
}
use vpsssssskjwjw.Storage.{StorageLibrary, Config, Objects, Fault}
use vpsssssskjwjw.Storage.Markers.{list_releases}

module _ (L : StorageLibrary) (c : Config) (up : Text → Bool) (A : ArchiveLibrary) (limits : Limits)
    (max_upload_bytes : ℕ) where
  abbrev listed : Result PathError Text → Result Fault (List Text) → Result RestoreError (List Text)
  listed (err e) names = err invalid_name
  listed (ok project) (err f) = err durable_restore_failed
  listed (ok project) (ok names) = ok names

  -- `list_backups`
  unfoldable pub list_backups : Text → ℕ → Objects → Result RestoreError (List Text)
  list_backups project limit s =
      listed (validate_project_name A.unicode project) (list_releases L c up project limit s)

  abbrev pub after_listing :
      World
      → Text
      → Text
      → Text
      → Project
      → DeployError
      → Objects
      → Result RestoreError (List Text)
      → Restoration × Objects
  after_listing w project release name q e s (err f) = ((err f, q), s)
  after_listing w project release name q e s (ok names) =
      if not (contains names release)
      then ((err (deployment_failed e), q), s)
      else restore_backup L c up A limits max_upload_bytes w true project (some release) name q s

  abbrev pub after_refusal :
      World
      → Bool
      → Text
      → Option Text
      → Text
      → Project
      → DeployError
      → Objects
      → Restoration × Objects
  after_refusal w true project (some (x ∷ release)) name q e s =
      after_listing w project (x ∷ release) name q e s (list_backups project 100 s)
  after_refusal w operation project release name q e s = ((err (deployment_failed e), q), s)

  abbrev pub after_rollback :
      World
      → Bool
      → Text
      → Option Text
      → Text
      → Objects
      → Outcome DeployResult
      → Restoration × Objects
  after_rollback w operation project release name s (ok r, q) = ((ok r, q), s)
  after_rollback w operation project release name s (err e, q) =
      after_refusal w operation project release name q e s

  -- `w` is how the calls of the rollback fare and `w'` how those of the restoration do; `name` is the
  -- name of the release that is restored to.
  unfoldable pub do_rollback :
      World
      → World
      → Bool
      → Bool
      → Text
      → Option Text
      → Text
      → Project
      → Objects
      → Restoration × Objects
  do_rollback w w' idempotent operation project release name p s =
      after_rollback w' operation project release name s (rollback L.sha256 w idempotent release p)
