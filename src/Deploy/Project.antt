-- ===== src/Deploy/Project.antt =====
-- A project with its releases in src/titanbox/deploy.py, and the steps of its transactions:
-- `_activate_release`, `_restart_and_verify`, `_restore_after_failed_activation` and
-- `_prune_releases`. The lock of the project makes each a single step. How the runner, the
-- durable store and the staging fare is an argument, `World`; the replacement of the symlink does
-- not fail.
pub mod Prune
pub mod Restore
use vpsssssskjwjw.Prelude.{
  ℕ, zero, suc, ◌+◌, ◌-◌, max, Bool, true, false, ◌&&◌, ◌||◌, not, Option, none, some, List, [],
  ◌∷◌, ◌++◌, Text, text_eq, nat_eq, ◌==◌, contains, ltb, if◌then◌else◌,
}
use vpsssssskjwjw.Prelude.Dict.{Dict, lookup, insert, erase}
use vpsssssskjwjw.Prelude.Result.{Result, ok, err}
use vpsssssskjwjw.Deploy.Manifest
use vpsssssskjwjw.Deploy.Manifest.{Tree, verify_manifest, keys, manifest_missing}

-- What the durable store holds of a release.
pub data Remote : Type 0 where
  candidate active : Remote

-- `releases` stands in the order of `release_names`, newest first; `current` is the name that the
-- symlink points to. `configured` is whether the runner knows the project, and `started` is the
-- release that its process was started from, if it has not been stopped.
pub record Project : Type 0 where
  pub releases : Dict Text Tree
  pub current : Option Text
  pub remote : Dict Text Remote
  pub configured : Bool
  pub started : Option Text

-- How the calls of one operation fare. A call of the store that fails leaves there what `left` says.
pub record World : Type 0 where
  pub store_enabled : Bool
  pub durability_required : Bool
  pub backup_ok : Bool
  pub backup_left : Option Remote
  pub promote_ok : Bool
  pub promote_left : Option Remote
  pub abandon_left : Option Remote
  pub healthy : Bool
  pub healthy_restored : Bool
  pub keep_releases : ℕ

pub data DeployError : Type 0 where
  integrity : Manifest.Failure → DeployError
  unstable backup_failed activation_failed commit_failed rollback_failed : DeployError
  no_releases no_previous not_found already_active staging_failed reconciliation_failed :
      DeployError

pub data Backup : Type 0 where
  no_backup candidate_only backup_warning active_ok commit_warning : Backup

pub record DeployResult : Type 0 where
  pub release : Text
  pub previous_release : Option Text
  pub restarted : Bool
  pub rolled_back : Bool
  pub backup : Backup

-- A method that may raise leaves the project beside its result.
abbrev pub Outcome : Type 0 → Type 0
Outcome A = Result DeployError A × Project

-- `current_release_name(project) == release`
abbrev pub is_current : Text → Option Text → Bool
is_current release none = false
is_current release (some name) = name == release

abbrev pub set_remote : Text → Option Remote → Project → Project
set_remote release none p = record p { remote = erase release p.remote }
set_remote release (some r) p = record p { remote = insert release r p.remote }

-- `_restart_and_verify`: whether the application was restarted, or a `DeployError`.
unfoldable pub restart_and_verify : Bool → Project → Outcome Bool
restart_and_verify healthy p =
    if not p.configured
    then (ok false, p)
    else ((if healthy then ok true else err unstable), record p { started = p.current })

unfoldable pub prune_loop : ℕ → ℕ → List Text → Dict Text Tree → Dict Text Tree
prune_loop keep survivors protect [] = []
prune_loop keep survivors protect ((name, t) ∷ releases) =
    let kept = contains protect name || ltb survivors keep in
    let rest = prune_loop keep (if kept then survivors + 1 else survivors) protect releases in
    if kept then (name, t) ∷ rest else rest

abbrev pub protected : Text → Option Text → List Text
protected release none = release ∷ []
protected release (some previous) = release ∷ previous ∷ []

-- `_prune_releases`
unfoldable pub prune_releases : ℕ → List Text → Project → Project
unfolding prune_loop
prune_releases keep protect p = record p { releases = prune_loop (max 2 keep) 0 protect p.releases }

module _ (sha256 : Text → Text) where
  -- `_verify_manifest` of a release by name; a directory that is missing has no manifest.
  unfoldable pub verify_release : Text → Project → Result Manifest.Failure Text
  verify_release release p = elim (lookup release p.releases) [
    | none ↦ err manifest_missing
    | some t ↦ verify_manifest sha256 t
  ]

  -- `_activate_release`: the symlink is replaced only after the manifest has been verified.
  unfoldable pub activate_release : Text → Project → Outcome (Option Text)
  activate_release release p = elim (verify_release release p) [
    | err f ↦ (err (integrity f), p)
    | ok d ↦ (ok p.current, record p { current = some release })
  ]

  -- `_restore_after_failed_activation`
  unfoldable pub restore : World → Option Text → Project → Outcome (Unit {0})
  restore w none p =
      (ok tt, record p { current = none; started = if p.configured then none else p.started })
  restore w (some previous) p =
      let (r, p') = activate_release previous p in
      elim r [
        | err e ↦ (err e, p')
        | ok old ↦ (ok tt, (restart_and_verify w.healthy_restored p').1)
      ]
