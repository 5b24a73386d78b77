-- ===== src/Deploy/Rollback.antt =====
-- `rollback` of src/titanbox/deploy.py.
pub mod Laws
use vpsssssskjwjw.Prelude.{
  ℕ, zero, suc, ◌+◌, ◌-◌, max, Bool, true, false, ◌&&◌, ◌||◌, not, Option, none, some, List, [],
  ◌∷◌, ◌++◌, Text, text_eq, nat_eq, ◌==◌, contains, ltb, if◌then◌else◌,
}
use vpsssssskjwjw.Prelude.Dict.{Dict, lookup, insert, erase}
use vpsssssskjwjw.Prelude.Result.{Result, ok, err}
use vpsssssskjwjw.Deploy.Manifest
use vpsssssskjwjw.Deploy.Manifest.{Tree, verify_manifest, keys, manifest_missing}
use vpsssssskjwjw.Deploy.Project.{
  Remote, candidate, active, Project, World, DeployError, integrity, unstable, backup_failed,
  activation_failed, commit_failed, rollback_failed, no_releases, no_previous, not_found,
  already_active, staging_failed, reconciliation_failed, Backup, no_backup, candidate_only,
  backup_warning, active_ok, commit_warning, DeployResult, Outcome, is_current, set_remote,
  restart_and_verify, prune_loop, protected, prune_releases, verify_release, activate_release,
  restore,
}

-- The name that `rollback` takes if none is given: the newest release that is not the current one.
unfoldable pub first_other : Text → List Text → Option Text
first_other current [] = none
first_other current (name ∷ names) =
    if name == current then first_other current names else some name

module _ (sha256 : Text → Text) where
  abbrev pub rolled : Text → Text → Bool → DeployResult
  rolled release current restarted = record {
    release = release;
    previous_release = some current;
    restarted = restarted;
    rolled_back = true;
    backup = no_backup;
  }

  abbrev pub after_forward : World → Outcome (Option Text) → Outcome DeployResult
  after_forward w (err e, p) = (err e, p)
  after_forward w (ok _, p) = (err rollback_failed, (restart_and_verify w.healthy_restored p).1)

  -- Back to the release that was current, best effort as to its restart.
  unfoldable pub roll_forward : World → Text → Project → Outcome DeployResult
  roll_forward w current p = after_forward w (activate_release sha256 current p)

  abbrev pub after_restart : World → Text → Text → Outcome Bool → Outcome DeployResult
  after_restart w current release (err e, p) = roll_forward w current p
  after_restart w current release (ok restarted, p) = (ok (rolled release current restarted), p)

  abbrev pub after_activation : World → Text → Text → Outcome (Option Text) → Outcome DeployResult
  after_activation w current release (err e, p) = (err e, p)
  after_activation w current release (ok _, p) =
      after_restart w current release (restart_and_verify w.healthy p)

  -- The branch of another release.
  unfoldable pub roll_to : World → Text → Text → Project → Outcome DeployResult
  roll_to w current release p =
      after_activation w current release (activate_release sha256 release p)

  abbrev pub after_same : Text → Outcome Bool → Outcome DeployResult
  after_same current (err e, p) = (err e, p)
  after_same current (ok restarted, p) = (ok (rolled current current restarted), p)

  -- The branch of the release that is current already.
  unfoldable pub roll_same : World → Bool → Text → Project → Outcome DeployResult
  roll_same w idempotent current p =
      if not idempotent then (err already_active, p) else elim (verify_release sha256 current p) [
        | err f ↦ (err (integrity f), p)
        | ok d ↦ after_same current (restart_and_verify w.healthy p)
      ]

  unfoldable pub roll_named : World → Bool → Text → Text → Project → Outcome DeployResult
  roll_named w idempotent current release p =
      if not (contains (keys p.releases) release)
      then (err not_found, p)
      else if release == current
      then roll_same w idempotent current p
      else roll_to w current release p

  -- The release that was asked for, or the newest other one.
  abbrev pub target : Text → Option Text → List Text → Option Text
  target current none names = first_other current names
  target current (some name) names = some name

  abbrev pub roll_target : World → Bool → Text → Option Text → Project → Outcome DeployResult
  roll_target w idempotent current none p = (err no_previous, p)
  roll_target w idempotent current (some name) p = roll_named w idempotent current name p

  abbrev pub roll_listed :
      World → Bool → Text → Option Text → List Text → Project → Outcome DeployResult
  roll_listed w idempotent current release [] p = (err no_releases, p)
  roll_listed w idempotent current release (newest ∷ names) p =
      roll_target w idempotent current (target current release (newest ∷ names)) p

  abbrev pub roll_from : World → Bool → Option Text → Option Text → Project → Outcome DeployResult
  roll_from w idempotent none release p = (err no_releases, p)
  roll_from w idempotent (some current) release p =
      roll_listed w idempotent current release (keys p.releases) p

  unfoldable pub rollback : World → Bool → Option Text → Project → Outcome DeployResult
  rollback w idempotent release p = roll_from w idempotent p.current release p
