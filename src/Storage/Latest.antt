-- ===== src/Storage/Latest.antt =====
-- `latest_release` of `DurableReleaseStore` in src/titanbox/storage.py.
pub mod Laws
use vpsssssskjwjw.Prelude.{
  ℕ, Bool, true, false, ◌&&◌, not, Option, none, some, List, [], ◌∷◌, Text, text_eq, ◌==◌,
  if◌then◌else◌,
}
use vpsssssskjwjw.Prelude.Dict.{Dict, insert}
use vpsssssskjwjw.Prelude.Result.{Result, ok, err, ◌>>=◌, ◌>>◌, guard}
use vpsssssskjwjw.Storage.{
  Payload, Json, object, null, other_json, Fault, storage_error, integrity_error, other_error,
  Objects, StorageLibrary, Config, safe_project, safe_release, latest_key, is_text, put_bytes,
  delete_key,
}
use vpsssssskjwjw.Storage.Markers.{
  verify_signature, get_json, as_object, active_marker, list_releases,
}

-- `str(pointer.get("release") or "")`
abbrev pub text_of : Option Text → Text
text_of none = []
text_of (some t) = t

module _ (L : StorageLibrary) (c : Config) (up : Text → Bool) where
  abbrev pub check_pointer : Payload → Text → Result Fault Payload → Result Fault (Option Text)
  check_pointer pointer release (err storage_error) = ok none
  check_pointer pointer release (err integrity_error) = err integrity_error
  check_pointer pointer release (err other_error) = err other_error
  check_pointer pointer release (ok marker) =
      guard (marker.sha256 == pointer.sha256) integrity_error >> ok (some release)

  -- The pointer's release, if its marker can be read: `none` sends the caller to the markers.
  unfoldable pub follow : Text → Json → Objects → Result Fault (Option Text)
  follow project json s = do
    pointer ← as_object L c up json
    guard (is_text pointer.project project) integrity_error
    verify_signature L c up pointer
    let release = text_of pointer.release
    safe_release release
    check_pointer pointer release (active_marker L c up project release s)

  -- The pointer is written again for the newest release; only an integrity failure is not swallowed.
  abbrev pub rewrite :
      Text → Text → Objects → Result Fault Payload → Result Fault (Option Text) × Objects
  rewrite project release s (err storage_error) = (ok (some release), s)
  rewrite project release s (err integrity_error) = (err integrity_error, s)
  rewrite project release s (err other_error) = (ok (some release), s)
  rewrite project release s (ok marker) =
      (ok (some release), (put_bytes up (latest_key project) (L.dumps marker) s).1)

  unfoldable pub heal : Text → Text → Objects → Result Fault (Option Text) × Objects
  heal project release s = rewrite project release s (active_marker L c up project release s)

  abbrev pub after_list :
      Text → Objects → Result Fault (List Text) → Result Fault (Option Text) × Objects
  after_list project s (err e) = (err e, s)
  after_list project s (ok []) = (ok none, delete_key up (latest_key project) s)
  after_list project s (ok (release ∷ _)) = heal project release s

  unfoldable pub newest : Text → Objects → Result Fault (Option Text) × Objects
  newest project s = after_list project s (list_releases L c up project 1 s)

  abbrev pub after_follow :
      Text → Objects → Result Fault (Option Text) → Result Fault (Option Text) × Objects
  after_follow project s (err e) = (err e, s)
  after_follow project s (ok (some release)) = (ok (some release), s)
  after_follow project s (ok none) = newest project s

  abbrev pub after_pointer :
      Text → Objects → Result Fault Json → Result Fault (Option Text) × Objects
  after_pointer project s (err e) = newest project s
  after_pointer project s (ok null) = newest project s
  after_pointer project s (ok other_json) = after_follow project s (follow project other_json s)
  after_pointer project s (ok (object p)) = after_follow project s (follow project (object p) s)

  abbrev pub after_project :
      Text → Objects → Result Fault (Unit {0}) → Result Fault (Option Text) × Objects
  after_project project s (err e) = (err e, s)
  after_project project s (ok u) = after_pointer project s (get_json L c up (latest_key project) s)

  unfoldable pub latest_release : Text → Objects → Result Fault (Option Text) × Objects
  latest_release project s =
      if c.enabled then after_project project s (safe_project project) else (ok none, s)
