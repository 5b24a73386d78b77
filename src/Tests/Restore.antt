-- ===== src/Tests/Restore.antt =====
-- A restoration of src/titanbox/deploy.py, and a queued rollback of src/titanbox/plugins/deploy_admin.py
-- to a release that is no longer on the disk, at concrete inputs.
use vpsssssskjwjw.Prelude.{
  ℕ, ◌≡◌, refl, Bool, true, false, none, some, List, [], ◌∷◌, Text, text_dec, ℕ_discrete, text_eq,
  nat_eq, ◌==◌, codes, ltb,
}
use vpsssssskjwjw.Prelude.Result.{ok}
use vpsssssskjwjw.Deploy.Archive.{Limits}
use vpsssssskjwjw.Deploy.Manifest
use vpsssssskjwjw.Deploy.Manifest.{Tree, write_manifest}
use vpsssssskjwjw.Deploy.Project.{Project, World, candidate, verify_release, DeployResult, Backup}
use vpsssssskjwjw.Deploy.Project.Restore.{Verifies}
use vpsssssskjwjw.Deploy.Restore.{ArchiveLibrary, restore_backup}
use vpsssssskjwjw.Deploy.Restore.Laws.{IsRestored, restore_backup-IsRestored}
use vpsssssskjwjw.Admin.Recover.{do_rollback}
use vpsssssskjwjw.Admin.Recover.Laws.{IsRecovered, do_rollback-IsRecovered}
use vpsssssskjwjw.Tests.Storage.{library, config, up, objects}

-- Every archive holds the one file of a small application.
abbrev archives : ArchiveLibrary
archives = record {
  unicode = record { is_space = λ c. c == 32; is_invisible = λ c. ltb c 32; nfc = λ s. s };
  entries = λ bytes. some (
      record {
        filename = codes "app.py";
        file_size = 5;
        is_link = false;
        blocks = codes "print" ∷ [];
      }
      ∷ []);
  can_write = λ nodes path. true;
  parses = λ name content. true;
  sorted = λ files. files;
}

abbrev limits : Limits
limits = record { max_archive_files = 10; max_extracted_bytes = 100 }

abbrev tree : Tree
tree =
    (write_manifest library.sha256
      (record { files = (codes "a", codes "b") ∷ []; manifest = Manifest.missing })).1

abbrev project : Project
project = record {
  releases = (codes "r0", tree) ∷ [];
  current = some (codes "r0");
  remote = [];
  configured = true;
  started = some (codes "r0");
}

abbrev world : World
world = record {
  store_enabled = true;
  durability_required = true;
  backup_ok = true;
  backup_left = none;
  promote_ok = true;
  promote_left = some candidate;
  abandon_left = none;
  healthy = true;
  healthy_restored = true;
  keep_releases = 2;
}

project-Verifies : Verifies library.sha256 (some (codes "r0")) project
unfolding verify_release vpsssssskjwjw.Prelude.Dict.lookup text_dec Manifest.verify_manifest
    write_manifest Manifest.verify_readable Manifest.hmac_compare_digest Manifest.tree_digest
    Manifest.is_subset Manifest.file_records Manifest.check_files Manifest.check_record
project-Verifies = (codes "0123456789abcdef0123456789abcdef0123456789abcdef0123456789abcdef", refl)

abbrev restored : DeployResult
restored = record {
  release = codes "r1";
  previous_release = some (codes "r0");
  restarted = true;
  rolled_back = false;
  backup = Backup.active_ok;
}

-- The release is not on the disk, so that the rollback restores its backup.

restore_backup-IsRestored_example :
    IsRestored library config up archives limits 100
      (codes "p")
      (some (codes "r"))
      objects
      (codes "r1")
      project
      (restore_backup library config up archives limits 100 world true
        (codes "p")
        (some (codes "r"))
        (codes "r1")
        project
        objects)
unfolding text_dec
restore_backup-IsRestored_example =
    restore_backup-IsRestored library config up archives limits 100 world true (codes "p")
      (codes "r1") project refl project-Verifies (some (codes "r")) objects

do_rollback-IsRecovered_example :
    IsRecovered library config up archives limits 100
      (codes "p")
      (some (codes "r"))
      objects
      (codes "r1")
      project
      (do_rollback library config up archives limits 100 world world true true
        (codes "p")
        (some (codes "r"))
        (codes "r1")
        project
        objects)
unfolding text_dec
do_rollback-IsRecovered_example =
    do_rollback-IsRecovered library config up archives limits 100 world (codes "p") (codes "r1")
      project refl project-Verifies world true true (some (codes "r")) objects

-- The release is not on the disk, so that the rollback restores its backup.
recovers :
    (do_rollback library config up archives limits 100 world world true true
      (codes "p")
      (some (codes "r"))
      (codes "r1")
      project
      objects).0.0
    ≡ ok restored
unfolding vpsssssskjwjw.Admin.Recover.list_backups vpsssssskjwjw.Admin.Recover.do_rollback
    vpsssssskjwjw.Deploy.Rollback.first_other vpsssssskjwjw.Deploy.Rollback.roll_forward
    vpsssssskjwjw.Deploy.Rollback.roll_to vpsssssskjwjw.Deploy.Rollback.roll_same
    vpsssssskjwjw.Deploy.Rollback.roll_named vpsssssskjwjw.Deploy.Rollback.rollback
    vpsssssskjwjw.Deploy.Restore.archive_ceiling vpsssssskjwjw.Deploy.Restore.staged_tree
    vpsssssskjwjw.Deploy.Restore.deploy_zip vpsssssskjwjw.Deploy.Restore.chosen_release
    vpsssssskjwjw.Deploy.Restore.restore_backup vpsssssskjwjw.Deploy.Archive.drop_slashes
    vpsssssskjwjw.Deploy.Archive.check_member vpsssssskjwjw.Deploy.Archive.check_members
    vpsssssskjwjw.Deploy.Archive.make_dirs vpsssssskjwjw.Deploy.Archive.read_blocks
    vpsssssskjwjw.Deploy.Archive.extract_member vpsssssskjwjw.Deploy.Archive.extract_all
    vpsssssskjwjw.Deploy.Archive.safe_extract_zip vpsssssskjwjw.Deploy.Archive.drop_macos
    vpsssssskjwjw.Deploy.Archive.flatten_single_root vpsssssskjwjw.Deploy.Archive.files_of
    vpsssssskjwjw.Deploy.Archive.check_tree vpsssssskjwjw.Deploy.Archive.validate_tree
    vpsssssskjwjw.Deploy.Paths.drop_spaces vpsssssskjwjw.Deploy.Paths.strip
    vpsssssskjwjw.Deploy.Paths.to_slashes vpsssssskjwjw.Deploy.Paths.split_slash
    vpsssssskjwjw.Deploy.Paths.components vpsssssskjwjw.Deploy.Paths.parts
    vpsssssskjwjw.Deploy.Paths.join_slash vpsssssskjwjw.Deploy.Paths.validate_project_name
    vpsssssskjwjw.Deploy.Paths.check_parts vpsssssskjwjw.Deploy.Paths.validate_relative_path
    vpsssssskjwjw.Deploy.Paths.safe_filename vpsssssskjwjw.Deploy.Paths.zip_member_path
    vpsssssskjwjw.Deploy.Manifest.ascii vpsssssskjwjw.Deploy.Manifest.hmac_compare_digest
    vpsssssskjwjw.Deploy.Manifest.stream vpsssssskjwjw.Deploy.Manifest.is_subset
    vpsssssskjwjw.Deploy.Manifest.tree_digest vpsssssskjwjw.Deploy.Manifest.file_records
    vpsssssskjwjw.Deploy.Manifest.write_manifest vpsssssskjwjw.Deploy.Manifest.check_record
    vpsssssskjwjw.Deploy.Manifest.check_files vpsssssskjwjw.Deploy.Manifest.verify_readable
    vpsssssskjwjw.Deploy.Manifest.verify_manifest vpsssssskjwjw.Deploy.Project.restart_and_verify
    vpsssssskjwjw.Deploy.Project.prune_loop vpsssssskjwjw.Deploy.Project.prune_releases
    vpsssssskjwjw.Deploy.Project.verify_release vpsssssskjwjw.Deploy.Project.activate_release
    vpsssssskjwjw.Deploy.Project.restore vpsssssskjwjw.Deploy.Finalize.finish
    vpsssssskjwjw.Deploy.Finalize.commit vpsssssskjwjw.Deploy.Finalize.activate_and_commit
    vpsssssskjwjw.Deploy.Finalize.finalize_release vpsssssskjwjw.Deploy.Finalize.resume_idempotent
    vpsssssskjwjw.Deploy.Finalize.deploy vpsssssskjwjw.Deploy.Finalize.put_file
    vpsssssskjwjw.Storage.safe_project vpsssssskjwjw.Storage.safe_release
    vpsssssskjwjw.Storage.is_sha256 vpsssssskjwjw.Storage.folder vpsssssskjwjw.Storage.zip_key
    vpsssssskjwjw.Storage.metadata_key vpsssssskjwjw.Storage.marker_key
    vpsssssskjwjw.Storage.latest_key vpsssssskjwjw.Storage.compare_digest
    vpsssssskjwjw.Storage.get_bytes vpsssssskjwjw.Storage.put_bytes vpsssssskjwjw.Storage.delete_key
    vpsssssskjwjw.Storage.marker_names vpsssssskjwjw.Storage.insert_row
    vpsssssskjwjw.Storage.sort_rows vpsssssskjwjw.Storage.Markers.signature
    vpsssssskjwjw.Storage.Markers.signed vpsssssskjwjw.Storage.Markers.verify_signature
    vpsssssskjwjw.Storage.Markers.get_json vpsssssskjwjw.Storage.Markers.active_marker
    vpsssssskjwjw.Storage.Markers.marker_rows vpsssssskjwjw.Storage.Markers.list_releases
    vpsssssskjwjw.Storage.Releases.delete_release vpsssssskjwjw.Storage.Releases.abandon_release
    vpsssssskjwjw.Storage.Releases.candidate vpsssssskjwjw.Storage.Releases.backup_release
    vpsssssskjwjw.Storage.Releases.read_candidate vpsssssskjwjw.Storage.Releases.marker_of
    vpsssssskjwjw.Storage.Releases.promoted vpsssssskjwjw.Storage.Releases.write_promotion
    vpsssssskjwjw.Storage.Releases.delete_releases vpsssssskjwjw.Storage.Releases.prune
    vpsssssskjwjw.Storage.Releases.promote_release vpsssssskjwjw.Storage.Releases.check_metadata
    vpsssssskjwjw.Storage.Releases.check_archive vpsssssskjwjw.Storage.Releases.fetch
    vpsssssskjwjw.Storage.Releases.read_metadata vpsssssskjwjw.Storage.Releases.download_archive
    vpsssssskjwjw.Prelude.Dict.lookup vpsssssskjwjw.Prelude.Dict.insert
    vpsssssskjwjw.Prelude.Dict.erase text_dec ℕ_discrete
recovers = refl
