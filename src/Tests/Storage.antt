-- ===== src/Tests/Storage.antt =====
-- The backups of src/titanbox/storage.py at concrete inputs.
use vpsssssskjwjw.Prelude.{
  ℕ, ◌≡◌, ◌≢◌, refl, Bool, true, false, Option, none, some, List, [], ◌∷◌, Text, text_eq, length,
  codes, arith, ap, ◌==◌, if◌then◌else◌,
}
use vpsssssskjwjw.Prelude.Result.{ok, err}
use vpsssssskjwjw.Storage.{
  Payload, object, storage_error, Objects, StorageLibrary, Config, zip_key, metadata_key,
  marker_key, latest_key,
}
use vpsssssskjwjw.Storage.Markers.{active_marker}
use vpsssssskjwjw.Storage.Releases.{download_archive, abandon_release}
use vpsssssskjwjw.Storage.Latest.{latest_release}
use vpsssssskjwjw.Storage.Latest.Laws.{IsActive, latest_release-SoundAnswer}
use vpsssssskjwjw.Storage.Integrity.{
  IsAuthentic, download_archive-IsAuthentic, abandon_release-inactive,
}

abbrev sum : Text
sum = codes "0123456789abcdef0123456789abcdef0123456789abcdef0123456789abcdef"

abbrev metadata : Payload
metadata = record {
  project = some (codes "p");
  release = some (codes "r");
  sha256 = sum;
  size = some 3;
  state = codes "active";
  activated_at = some 7;
  signature = codes "mac";
  rest = [];
}

abbrev keys : Objects → List Text
keys [] = []
keys ((key, content) ∷ s) = key ∷ keys s

-- A library whose parser gives the same payload for every text.
abbrev pub library : StorageLibrary
library = record {
  loads = λ s. some (object metadata);
  dumps = λ p. codes "{}";
  hmac = λ key p. codes "mac";
  sha256 = λ s. sum;
  details = λ archive. [];
  version = [];
  list_keys = λ prefix limit s. keys s;
}

abbrev pub config : Config
config = record { enabled = true; keep_releases = 20; signing_key = some (codes "key") }

abbrev pub up : Text → Bool
up key = true

abbrev pub objects : Objects
objects =
    (zip_key (codes "p") (codes "r"), codes "zip")
    ∷ (metadata_key (codes "p") (codes "r"), codes "{}")
    ∷ (marker_key (codes "p") (codes "r"), codes "{}")
    ∷ []

download_archive-IsAuthentic_example :
    IsAuthentic library config up (codes "p") (codes "r") objects metadata (codes "zip")
unfolding download_archive active_marker vpsssssskjwjw.Storage.safe_project
    vpsssssskjwjw.Storage.safe_release vpsssssskjwjw.Storage.Markers.get_json
    vpsssssskjwjw.Storage.get_bytes vpsssssskjwjw.Prelude.Dict.lookup vpsssssskjwjw.Prelude.text_dec
    marker_key zip_key metadata_key vpsssssskjwjw.Storage.Markers.verify_signature
    vpsssssskjwjw.Storage.Markers.signature vpsssssskjwjw.Storage.compare_digest
    vpsssssskjwjw.Storage.is_sha256 vpsssssskjwjw.Storage.Releases.read_metadata
    vpsssssskjwjw.Storage.Releases.check_metadata vpsssssskjwjw.Prelude.ℕ_discrete
    vpsssssskjwjw.Storage.Releases.check_archive vpsssssskjwjw.Storage.Releases.fetch
    vpsssssskjwjw.Storage.folder
download_archive-IsAuthentic_example =
    download_archive-IsAuthentic library config up (codes "p") (codes "r") objects metadata
      (codes "zip") refl

abandon_release-inactive_example :
    active_marker library config up
      (codes "p")
      (codes "r")
      (abandon_release library config up (codes "p") (codes "r") objects)
    ≡ err storage_error
unfolding vpsssssskjwjw.Storage.safe_project vpsssssskjwjw.Storage.safe_release
abandon_release-inactive_example =
    abandon_release-inactive library config up (codes "p") (codes "r") objects refl refl refl refl

-- There is no pointer, so that the release is found by its marker.
latest_found : (latest_release library config up (codes "p") objects).0 ≡ ok (some (codes "r"))
unfolding latest_release vpsssssskjwjw.Storage.safe_project vpsssssskjwjw.Storage.Markers.get_json
    vpsssssskjwjw.Storage.get_bytes vpsssssskjwjw.Prelude.Dict.lookup vpsssssskjwjw.Prelude.text_dec
    latest_key vpsssssskjwjw.Storage.Markers.verify_signature
    vpsssssskjwjw.Storage.Markers.signature vpsssssskjwjw.Storage.compare_digest
    vpsssssskjwjw.Storage.safe_release active_marker marker_key zip_key metadata_key
    vpsssssskjwjw.Storage.is_sha256 vpsssssskjwjw.Storage.Latest.newest
    vpsssssskjwjw.Storage.Markers.list_releases vpsssssskjwjw.Storage.Markers.marker_rows
    vpsssssskjwjw.Storage.marker_names vpsssssskjwjw.Prelude.ℕ_discrete
    vpsssssskjwjw.Prelude.Dict.erase vpsssssskjwjw.Prelude.Dict.insert
    vpsssssskjwjw.Storage.Latest.heal vpsssssskjwjw.Storage.delete_key vpsssssskjwjw.Storage.folder
    vpsssssskjwjw.Storage.insert_row vpsssssskjwjw.Storage.put_bytes vpsssssskjwjw.Storage.sort_rows
latest_found = refl

-- The pointer is there, and is followed.
latest_followed :
    (latest_release library config up
      (codes "p")
      ((latest_key (codes "p"), codes "{}") ∷ objects)).0
    ≡ ok (some (codes "r"))
unfolding latest_release vpsssssskjwjw.Storage.safe_project vpsssssskjwjw.Storage.Markers.get_json
    vpsssssskjwjw.Storage.get_bytes vpsssssskjwjw.Prelude.Dict.lookup vpsssssskjwjw.Prelude.text_dec
    latest_key vpsssssskjwjw.Storage.Latest.follow vpsssssskjwjw.Storage.Markers.verify_signature
    vpsssssskjwjw.Storage.Markers.signature vpsssssskjwjw.Storage.compare_digest
    vpsssssskjwjw.Storage.safe_release active_marker marker_key zip_key metadata_key
    vpsssssskjwjw.Storage.is_sha256
latest_followed = refl

latest_release-SoundAnswer_example : IsActive library config up (codes "p") (codes "r") objects
unfolding latest_release vpsssssskjwjw.Storage.safe_project vpsssssskjwjw.Storage.Markers.get_json
    vpsssssskjwjw.Storage.get_bytes vpsssssskjwjw.Prelude.Dict.lookup vpsssssskjwjw.Prelude.text_dec
    latest_key vpsssssskjwjw.Storage.Markers.verify_signature
    vpsssssskjwjw.Storage.Markers.signature vpsssssskjwjw.Storage.compare_digest
    vpsssssskjwjw.Storage.safe_release active_marker marker_key zip_key metadata_key
    vpsssssskjwjw.Storage.is_sha256 vpsssssskjwjw.Storage.Latest.newest
    vpsssssskjwjw.Storage.Markers.list_releases vpsssssskjwjw.Storage.Markers.marker_rows
    vpsssssskjwjw.Storage.marker_names vpsssssskjwjw.Prelude.ℕ_discrete
    vpsssssskjwjw.Prelude.Dict.erase vpsssssskjwjw.Prelude.Dict.insert
    vpsssssskjwjw.Storage.Latest.heal vpsssssskjwjw.Storage.delete_key vpsssssskjwjw.Storage.folder
    vpsssssskjwjw.Storage.insert_row vpsssssskjwjw.Storage.put_bytes vpsssssskjwjw.Storage.sort_rows
latest_release-SoundAnswer_example =
    latest_release-SoundAnswer library config up (codes "p") objects
