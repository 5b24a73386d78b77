-- ===== src/Deploy/Finalize.antt =====
-- `_finalize_release`, `_resume_idempotent_current` and `deploy_zip` of src/titanbox/deploy.py, the
-- last from the staged tree on.
pub mod Laws
pub mod Safety
use vpsssssskjwjw.Prelude.{
  ℕ, zero, suc, ◌+◌, ◌-◌, max, Bool, true, false, ◌&&◌, ◌||◌, not, Option, none, some, List, [],
  ◌∷◌, ◌++◌, Text, text_eq, nat_eq, ◌==◌, contains, ltb, if◌then◌else◌,
}
use vpsssssskjwjw.Prelude.Dict.{Dict, lookup, insert, erase}
use vpsssssskjwjw.Prelude.Result.{Result, ok, err}
use vpsssssskjwjw.Deploy.Manifest
use vpsssssskjwjw.Deploy.Manifest.{Tree, verify_manifest, keys, manifest_missing}
use vpsssssskjwjw.Deploy.Project.{
  Remote, candidate, active, Project, World, DeployError, integrity, unstable, backup_failed,
  activation_failed, commit_failed, rollback_failed, no_releases, no_previous, not_found,
  already_active, staging_failed, reconciliation_failed, Backup, no_backup, candidate_only,
  backup_warning, active_ok, commit_warning, DeployResult, Outcome, is_current, set_remote,
  restart_and_verify, prune_loop, protected, prune_releases, verify_release, activate_release,
  restore,
}

module _ (sha256 : Text → Text) where
  abbrev pub raising : DeployError → Outcome (Unit {0}) → Outcome DeployResult
  raising e (ok u, p) = (err e, p)
  raising e (err f, p) = (err f, p)

  -- The end of `_finalize_release`.
  unfoldable pub finish :
      World → Text → Option Text → Bool → Backup → Project → Outcome DeployResult
  finish w release previous restarted backup p = (
    ok (record {
      release = release;
      previous_release = previous;
      restarted = restarted;
      rolled_back = false;
      backup = backup;
    }),
    prune_releases w.keep_releases (protected release previous) p,
  )

  -- The commit of a candidate in the durable store.
  unfoldable pub commit : World → Text → Option Text → Bool → Project → Outcome DeployResult
  commit w release previous restarted p =
      let abandoned = set_remote release w.abandon_left p in
      if w.promote_ok
      then finish w release previous restarted active_ok (set_remote release (some active) p)
      else if w.durability_required
      then raising commit_failed (restore sha256 w previous abandoned)
      else finish w release previous restarted commit_warning abandoned

  abbrev pub abandon : World → Text → Backup → Project → Project
  abandon w release candidate_only p = set_remote release w.abandon_left p
  abandon w release _ p = p

  -- The end of the handler of a restart that failed, after the release before it was restored.
  abbrev pub after_restore : World → Text → Backup → Outcome (Unit {0}) → Outcome DeployResult
  after_restore w release b (ok _, p) = (err activation_failed, abandon w release b p)
  after_restore w release b (err f, p) = (err f, p)

  abbrev pub after_restart :
      World → Text → Option Text → Backup → Outcome Bool → Outcome DeployResult
  after_restart w release previous b (err e, p) =
      after_restore w release b (restore sha256 w previous p)
  after_restart w release previous candidate_only (ok restarted, p) =
      commit w release previous restarted p
  after_restart w release previous b (ok restarted, p) = finish w release previous restarted b p

  abbrev pub after_activation : World → Text → Backup → Outcome (Option Text) → Outcome DeployResult
  after_activation w release b (err e, p) = (err e, p)
  after_activation w release b (ok previous, p) =
      after_restart w release previous b (restart_and_verify w.healthy p)

  -- Activation, restart and commit; `b` is how the upload of the candidate fared.
  unfoldable pub activate_and_commit : World → Text → Backup → Project → Outcome DeployResult
  activate_and_commit w release b p =
      after_activation w release b (activate_release sha256 release p)

  -- `_finalize_release`
  unfoldable pub finalize_release : World → Text → Project → Outcome DeployResult
  finalize_release w release p =
      if not w.store_enabled
      then activate_and_commit w release no_backup p
      else if w.backup_ok
      then activate_and_commit w release candidate_only (set_remote release (some candidate) p)
      else if w.durability_required
      then (err backup_failed, set_remote release w.backup_left p)
      else activate_and_commit w release backup_warning (set_remote release w.backup_left p)

  abbrev pub resumed : Text → Backup → Outcome Bool → Outcome DeployResult
  resumed release b (err e, p) = (err e, p)
  resumed release b (ok restarted, p) = (
    ok (record {
      release = release;
      previous_release = none;
      restarted = restarted;
      rolled_back = false;
      backup = b;
    }),
    p,
  )

  abbrev pub reconcile : World → Text → Project → Outcome DeployResult
  reconcile w release p =
      if not w.store_enabled
      then resumed release no_backup (restart_and_verify w.healthy p)
      else if w.promote_ok
      then resumed release active_ok
          (restart_and_verify w.healthy (set_remote release (some active) p))
      else if w.durability_required
      then (err reconciliation_failed, set_remote release w.promote_left p)
      else resumed release commit_warning
          (restart_and_verify w.healthy (set_remote release w.promote_left p))

  abbrev pub after_check :
      World → Text → Project → Result Manifest.Failure Text → Outcome DeployResult
  after_check w release p (err f) = (err (integrity f), p)
  after_check w release p (ok d) = reconcile w release p

  -- `_resume_idempotent_current`
  unfoldable pub resume_idempotent : World → Text → Project → Outcome DeployResult
  resume_idempotent w release p = after_check w release p (verify_release sha256 release p)

  -- The handler at the end of `deploy_zip`: a release that is not the current one goes.
  abbrev pub cleanup : Text → Outcome DeployResult → Outcome DeployResult
  cleanup release (ok r, p) = (ok r, p)
  cleanup release (err e, p) = (
    err e,
    if is_current release p.current then p else record p { releases = erase release p.releases },
  )

  -- `deploy_zip` once the archive's size has passed and the release has its name. `operation` is
  -- whether an operation id was given; `staged` is the validated tree with its manifest, `none` if
  -- the extraction or the validation raised.
  unfoldable pub deploy : World → Bool → Text → Option Tree → Project → Outcome DeployResult
  deploy w operation release staged p =
      let cleared = record p { releases = erase release p.releases } in
      if not (contains (keys p.releases) release)
        || not (operation && (is_current release p.current))
      then elim staged [
        | none ↦ cleanup release (err staging_failed, cleared)
        | some t ↦ cleanup release (
            finalize_release w release
              (record cleared { releases = (release, t) ∷ cleared.releases }))
      ]
      else resume_idempotent w release p

  -- `put_file`, where `staged` is the copy of the current release with the file in it.
  unfoldable pub put_file : World → Bool → Text → Option Tree → Project → Outcome DeployResult
  put_file w operation release staged p = elim p.current [
    | none ↦ (err no_releases, p)
    | some current ↦ elim (lookup current p.releases) [
      | none ↦ (err no_releases, p)
      | some t ↦ deploy w operation release staged p
    ]
  ]
