-- ===== src/Tests/Deploy.antt =====
-- The transactions of src/titanbox/deploy.py at concrete inputs.
use vpsssssskjwjw.Prelude.{
  ℕ, ◌≡◌, refl, Bool, true, false, Option, none, some, List, [], ◌∷◌, Text, codes,
}
use vpsssssskjwjw.Prelude.Result.{ok}
use vpsssssskjwjw.Deploy.Manifest
use vpsssssskjwjw.Deploy.Manifest.{Tree, write_manifest, verify_manifest}
use vpsssssskjwjw.Deploy.Manifest.Laws.{verify-write_manifest}
use vpsssssskjwjw.Deploy.Project.{Project, World, candidate, verify_release}
use vpsssssskjwjw.Deploy.Project.Restore.{Verifies}
use vpsssssskjwjw.Deploy.Finalize.{finalize_release, deploy}
use vpsssssskjwjw.Deploy.Finalize.Laws.{IsAtomic, finalize_release-IsAtomic}
use vpsssssskjwjw.Deploy.Finalize.Safety.{IsDeployed, deploy-IsDeployed}
use vpsssssskjwjw.Deploy.Rollback.{rollback}
use vpsssssskjwjw.Admin.Commands.{resolve_rollback_target}
use vpsssssskjwjw.Admin.Freeze.{Settles, resolve_rollback_target-Settles}
use vpsssssskjwjw.Deploy.Rollback.Laws.{IsRolled, rollback-IsRolled}
use vpsssssskjwjw.Deploy.Runs.{Event, deploying, rolling_back, run, run-Verifies}

-- A toy digest.
abbrev digest : Text → Text
digest s = codes "digest"

abbrev app_py : Tree
app_py = record { files = (codes "app.py", codes "print") ∷ []; manifest = Manifest.missing }

abbrev tree : Tree
tree = record app_py {
  manifest = Manifest.readable (record {
    is_format_one = true;
    tree_sha256 = codes "digest";
    files = some ((codes "app.py", Manifest.entry (some 5) (codes "digest")) ∷ []);
  });
}

verify-write_manifest_example :
    verify_manifest digest (write_manifest digest app_py).1 ≡ ok (write_manifest digest app_py).0
unfolding vpsssssskjwjw.Prelude.Dict.lookup
verify-write_manifest_example = verify-write_manifest digest app_py (refl, tt)

abbrev project : Project
project = record {
  releases = (codes "r1", tree) ∷ (codes "r0", tree) ∷ [];
  current = some (codes "r1");
  remote = [];
  configured = true;
  started = some (codes "r1");
}

abbrev world : Bool → World
world healthy = record {
  store_enabled = true;
  durability_required = true;
  backup_ok = true;
  backup_left = none;
  promote_ok = true;
  promote_left = some candidate;
  abandon_left = none;
  healthy = healthy;
  healthy_restored = true;
  keep_releases = 2;
}

r1-Verifies : Verifies digest (some (codes "r1")) project
unfolding verify_release vpsssssskjwjw.Prelude.Dict.lookup vpsssssskjwjw.Prelude.text_dec
    verify_manifest Manifest.verify_readable Manifest.hmac_compare_digest Manifest.tree_digest
    Manifest.is_subset Manifest.check_files Manifest.check_record
r1-Verifies = (codes "digest", refl)

finalize_release-IsAtomic_example :
    IsAtomic digest
      (codes "r0")
      project
      (finalize_release digest (world false) (codes "r0") project)
finalize_release-IsAtomic_example =
    finalize_release-IsAtomic digest (world false) (codes "r0") project r1-Verifies

deploy-IsDeployed_example :
    IsDeployed digest
      (codes "r2")
      (some tree)
      project
      (deploy digest (world true) false (codes "r2") (some tree) project)
unfolding vpsssssskjwjw.Prelude.text_dec
deploy-IsDeployed_example =
    deploy-IsDeployed digest (world true) false (codes "r2") (some tree) project refl r1-Verifies

rollback-IsRolled_example :
    IsRolled digest project (rollback digest (world true) false none project)
rollback-IsRolled_example = rollback-IsRolled digest (world true) false none project r1-Verifies

abbrev events : List Event
events =
    deploying (world true) false (codes "r2") (some tree)
    ∷ deploying (world false) true (codes "r3") (some tree)
    ∷ rolling_back (world true) false none
    ∷ []

run-Verifies_example :
    Verifies digest (run digest events project).current (run digest events project)
run-Verifies_example = run-Verifies digest events project r1-Verifies

-- The newest release other than the current one is frozen.
resolve_rollback_target-Settles_example :
    Settles digest
      (world false)
      none
      project
      (resolve_rollback_target (Manifest.keys project.releases) project.current none)
resolve_rollback_target-Settles_example =
    resolve_rollback_target-Settles digest (world false) none project
