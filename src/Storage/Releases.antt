-- ===== src/Storage/Releases.antt =====
-- The two-phase backups of `DurableReleaseStore` in src/titanbox/storage.py: a release is uploaded as
-- a candidate, and its activation marker is written after it runs. A method that raises leaves the
-- object store beside its exception.
use vpsssssskjwjw.Prelude.{
  ℕ, Bool, false, ◌&&◌, not, Option, none, some, List, [], ◌∷◌, Text, text_eq, nat_eq, ◌==◌, codes,
  length, drop, min, max, if◌then◌else◌,
}
use vpsssssskjwjw.Prelude.Dict.{lookup}
use vpsssssskjwjw.Prelude.Result.{Result, ok, err, ◌>>=◌, ◌>>◌, guard, from_option}
use vpsssssskjwjw.Storage.{
  Payload, Fault, storage_error, integrity_error, other_error, Objects, StorageLibrary, Config,
  safe_project, safe_release, is_sha256, zip_key, metadata_key, marker_key, latest_key, is_text,
  call, put_bytes, delete_key,
}
use vpsssssskjwjw.Storage.Markers.{
  is_some, signed, verify_signature, get_json, or_storage_error, as_object, active_marker,
  list_releases,
}

-- `size == expected_size`, where the expected size is an integer
abbrev pub has_size : ℕ → Option ℕ → Bool
has_size n none = false
has_size n (some m) = n == m

module _ (L : StorageLibrary) (c : Config) (up : Text → Bool) where
  -- The three deletions of a release, each of which may fail.
  unfoldable pub delete_release : Text → Text → Objects → Objects
  delete_release project release s =
      delete_key up (zip_key project release) (
        delete_key up (metadata_key project release) (delete_key up (marker_key project release) s))

  abbrev or_same : Result Fault (Unit {0}) → Objects → Objects → Objects
  or_same (ok u) old new = new
  or_same (err e) old new = old

  unfoldable pub abandon_release : Text → Text → Objects → Objects
  abandon_release project release s =
      if c.enabled
      then or_same (safe_project project >> safe_release release) s
          (delete_release project release s)
      else s

  -- The candidate: `archive` is the ZIP of the release.
  unfoldable pub candidate : Text → Text → Text → Payload
  candidate project release archive = signed L c up (record {
    project = some project;
    release = some release;
    sha256 = L.sha256 archive;
    size = some (length archive);
    state = codes "candidate";
    activated_at = none;
    signature = [];
    rest = L.details archive;
  })

  unfoldable pub backup_release : Text → Text → Text → Objects → Result Fault Payload × Objects
  backup_release project release archive s =
      let metadata = candidate project release archive in
      let (zipped, s₁) = put_bytes up (zip_key project release) archive s in
      let (described, s₂) = put_bytes up (metadata_key project release) (L.dumps metadata) s₁ in
      elim (guard c.enabled storage_error >> safe_project project >> safe_release release) [
        | err e ↦ (err e, s)
        | ok u ↦
            if not zipped
            then (err other_error, abandon_release project release s₁)
            else if not described
            then (err other_error, abandon_release project release s₂)
            else (ok metadata, s₂)
      ]

  -- The checks of the candidate's metadata before a promotion.
  unfoldable pub read_candidate : Text → Text → Objects → Result Fault Payload
  read_candidate project release s = do
    guard c.enabled storage_error
    safe_project project
    safe_release release
    json ← or_storage_error L c up (get_json L c up (metadata_key project release) s)
    metadata ← as_object L c up json
    guard (is_text metadata.project project && is_text metadata.release release) integrity_error
    verify_signature L c up metadata
    guard (is_sha256 metadata.sha256) integrity_error
    ok metadata

  -- The marker has no size and no state.
  unfoldable pub marker_of : Text → Text → ℕ → Payload → Payload
  marker_of project release now metadata = signed L c up (record {
    project = some project;
    release = some release;
    sha256 = metadata.sha256;
    size = none;
    state = [];
    activated_at = some now;
    signature = [];
    rest = L.version;
  })

  unfoldable pub promoted : ℕ → Payload → Payload
  promoted now metadata =
      signed L c up (record metadata { state = codes "active"; activated_at = some now })

  -- The three writes of a promotion, in their order.
  unfoldable pub write_promotion :
      Text → Text → ℕ → Payload → Objects → Result Fault (Unit {0}) × Objects
  write_promotion project release now metadata s =
      let marker = L.dumps (marker_of project release now metadata) in
      let (a, s₁) =
        put_bytes up (metadata_key project release) (L.dumps (promoted now metadata)) s in
      let (b, s₂) = put_bytes up (marker_key project release) marker s₁ in
      let (d, s₃) = put_bytes up (latest_key project) marker s₂ in
      if not a
      then (err other_error, s₁)
      else if not b
      then (err other_error, s₂)
      else if not d
      then (err other_error, s₃)
      else (ok tt, s₃)

  unfoldable pub delete_releases : Text → List Text → Objects → Objects
  delete_releases project [] s = s
  delete_releases project (release ∷ releases) s =
      delete_releases project releases (delete_release project release s)

  -- `keep_releases` as the constructor clamps it.
  unfoldable pub prune : Text → Objects → Objects
  prune project s = elim (list_releases L c up project 500 s) [
    | err e ↦ s
    | ok releases ↦ delete_releases project (drop (min (max 2 c.keep_releases) 500) releases) s
  ]

  unfoldable pub promote_release : Text → Text → ℕ → Objects → Result Fault Payload × Objects
  promote_release project release now s = elim (read_candidate project release s) [
    | err e ↦ (err e, s)
    | ok metadata ↦
        let (r, s') = write_promotion project release now metadata s in
        elim r [ err e ↦ (err e, s') | ok u ↦ (ok (promoted now metadata), prune project s') ]
  ]

  -- The checks of the metadata against the marker.
  unfoldable pub check_metadata : Text → Text → Payload → Payload → Result Fault (Unit {0})
  check_metadata project release marker metadata = do
    verify_signature L c up metadata
    guard
        (is_text metadata.project project
          && (is_text metadata.release release && (metadata.state == codes "active")))
        integrity_error
    guard (is_sha256 metadata.sha256) integrity_error
    guard (marker.sha256 == metadata.sha256) integrity_error
    guard (is_some metadata.size) integrity_error

  -- The checks of the archive against the metadata.
  unfoldable pub check_archive : Payload → Text → Result Fault (Unit {0})
  check_archive metadata archive = do
    guard (has_size (length archive) metadata.size) integrity_error
    guard (L.sha256 archive == metadata.sha256) integrity_error

  unfoldable pub fetch : Text → Text → Objects → Payload → Result Fault (Payload × Text)
  fetch project release s metadata = do
    call up (zip_key project release)
    archive ← from_option other_error (lookup (zip_key project release) s)
    check_archive metadata archive
    ok (metadata, archive)

  unfoldable pub read_metadata : Text → Text → Objects → Result Fault Payload
  read_metadata project release s =
      get_json L c up (metadata_key project release) s >>= as_object L c up

  -- The result is the metadata and the content of the archive.
  unfoldable pub download_archive : Text → Text → Objects → Result Fault (Payload × Text)
  download_archive project release s = do
    marker ← active_marker L c up project release s
    metadata ← read_metadata project release s
    check_metadata project release marker metadata
    fetch project release s metadata
