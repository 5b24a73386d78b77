-- ===== src/Deploy/Restore.antt =====
-- From an archive to the current release in src/titanbox/deploy.py: `deploy_zip` from the bytes on, and
-- `restore_backup` over the durable store of src/titanbox/storage.py. The name of the new release is a
-- parameter, and so is what `zipfile` reads of the bytes of an archive.
pub mod Laws
use vpsssssskjwjw.Prelude.{
  ℕ, ◌+◌, ◌*◌, max, Bool, true, false, ◌||◌, not, Option, none, some, List, [], ◌∷◌, Text, text_eq,
  ◌==◌, codes, leb, length, if◌then◌else◌,
}
use vpsssssskjwjw.Prelude.Result
use vpsssssskjwjw.Prelude.Dict.{Dict}
use vpsssssskjwjw.Prelude.Result.{Result, ok, err}
use vpsssssskjwjw.Deploy.Paths.{UnicodeLibrary, validate_project_name, PathError}
use vpsssssskjwjw.Deploy.Archive.{
  ArchiveError, Entry, Limits, Node, safe_extract_zip, flatten_single_root, validate_tree,
}
use vpsssssskjwjw.Deploy.Manifest.{Tree}
use vpsssssskjwjw.Deploy.Project.{Project, World, DeployError, DeployResult}
use vpsssssskjwjw.Deploy.Finalize.{deploy}
use vpsssssskjwjw.Storage.{StorageLibrary, Config, Objects, Payload, Fault}
use vpsssssskjwjw.Storage.Releases.{download_archive}
use vpsssssskjwjw.Storage.Latest.{latest_release}

-- `zipfile`, what the disk takes while an archive is unpacked, the parsers of sources, and `sorted`.
pub record ArchiveLibrary : Type 0 where
  pub unicode : UnicodeLibrary
  pub entries : Text → Option (List Entry)
  pub can_write : List Node → List Text → Bool
  pub parses : Text → Text → Bool
  pub sorted : Dict Text Text → Dict Text Text

pub data RestoreError : Type 0 where
  invalid_name too_large not_configured no_active_backup durable_restore_failed : RestoreError
  deployment_failed : DeployError → RestoreError

abbrev pub Restoration : Type 0
Restoration = Result RestoreError DeployResult × Project

-- The ceiling on the bytes of an archive: a restored one is not bound by that of an upload.
unfoldable pub archive_ceiling : Bool → Limits → ℕ → ℕ
archive_ceiling trusted limits max_upload_bytes =
    if trusted
    then max max_upload_bytes
        (limits.max_extracted_bytes + limits.max_archive_files * 1024 + 1048576)
    else max_upload_bytes

module _ (A : ArchiveLibrary) (sha256 : Text → Text) (limits : Limits) (max_upload_bytes : ℕ) where
  abbrev pub staged_of : Result ArchiveError (List Node) → Result ArchiveError Tree
  staged_of (err e) = err e
  staged_of (ok nodes) = validate_tree A.parses A.sorted sha256 limits (flatten_single_root nodes)

  abbrev pub or_raised : Result ArchiveError Tree → Option Tree
  or_raised (err e) = none
  or_raised (ok t) = some t

  -- The tree that an archive is unpacked to, `none` if that raises.
  unfoldable pub staged_tree : Text → Option Tree
  staged_tree archive =
      or_raised (staged_of (safe_extract_zip A.can_write A.unicode limits (A.entries archive)))

  abbrev pub deployed : Result DeployError DeployResult × Project → Restoration
  deployed (err e, p) = (err (deployment_failed e), p)
  deployed (ok r, p) = (ok r, p)

  abbrev pub named_project : Result PathError Text → Restoration → Project → Restoration
  named_project (err e) o p = (err invalid_name, p)
  named_project (ok project) o p = o

  -- `release` is the name of the new release, and `operation` whether an operation id is given.
  unfoldable pub deploy_zip : World → Bool → Bool → Text → Text → Text → Project → Restoration
  deploy_zip w operation trusted project release archive p =
      named_project (validate_project_name A.unicode project)
        (if not (leb (length archive) (archive_ceiling trusted limits max_upload_bytes))
          then (err too_large, p)
          else deployed (deploy sha256 w operation release (staged_tree archive) p))
        p

-- `release in {None, "", "latest"}`
abbrev pub wants_latest : Option Text → Bool
wants_latest none = true
wants_latest (some release) = release == [] || release == codes "latest"

abbrev pub requested_name : Option Text → Text
requested_name none = []
requested_name (some release) = release

abbrev pub latest_name : Result Fault (Option Text) × Objects → Result RestoreError Text × Objects
latest_name (err f, s) = (err durable_restore_failed, s)
latest_name (ok none, s) = (err no_active_backup, s)
latest_name (ok (some []), s) = (err no_active_backup, s)
latest_name (ok (some (c ∷ r)), s) = (ok (c ∷ r), s)

module _ (L : StorageLibrary) (c : Config) (up : Text → Bool) (A : ArchiveLibrary) (limits : Limits)
    (max_upload_bytes : ℕ) where
  -- The release to restore, and the store after the newest one has been looked for.
  unfoldable pub chosen_release : Text → Option Text → Objects → Result RestoreError Text × Objects
  chosen_release project release s =
      if wants_latest release
      then latest_name (latest_release L c up project s)
      else (ok (requested_name release), s)

  abbrev pub after_download :
      World → Bool → Text → Text → Project → Result Fault (Payload × Text) → Restoration
  after_download w operation project name p (err f) = (err durable_restore_failed, p)
  after_download w operation project name p (ok (metadata, archive)) =
      deploy_zip A L.sha256 limits max_upload_bytes w operation true project name archive p

  abbrev pub after_choice :
      World
      → Bool
      → Text
      → Text
      → Project
      → Result RestoreError Text × Objects
      → Restoration × Objects
  after_choice w operation project name p (err e, s) = ((err e, p), s)
  after_choice w operation project name p (ok release, s) =
      (after_download w operation project name p (download_archive L c up project release s), s)

  abbrev pub for_project :
      Result PathError Text → Restoration × Objects → Project → Objects → Restoration × Objects
  for_project (err e) o p s = ((err invalid_name, p), s)
  for_project (ok project) o p s = o

  -- `name` is the name of the new release.
  unfoldable pub restore_backup :
      World → Bool → Text → Option Text → Text → Project → Objects → Restoration × Objects
  restore_backup w operation project release name p s =
      for_project (validate_project_name A.unicode project)
        (if not c.enabled
          then ((err not_configured, p), s)
          else after_choice w operation project name p (chosen_release project release s))
        p s
