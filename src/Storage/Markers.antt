-- ===== src/Storage/Markers.antt =====
-- Signatures and activation markers of `DurableReleaseStore` in src/titanbox/storage.py, and the
-- releases that the markers list.
use vpsssssskjwjw.Prelude.{
  ℕ, ◌+◌, ◌*◌, min, Bool, true, false, ◌&&◌, not, Option, none, some, List, [], ◌∷◌, Text, text_eq,
  nat_eq, ◌==◌, take, if◌then◌else◌,
}
use vpsssssskjwjw.Prelude.Result.{Result, ok, err, ◌>>=◌, ◌>>◌, guard, from_option}
use vpsssssskjwjw.Storage.{
  Payload, Json, object, null, other_json, Fault, storage_error, integrity_error, other_error,
  Objects, StorageLibrary, Config, safe_project, safe_release, is_sha256, marker_key,
  compare_digest, is_text, call, get_bytes, folder, marker_names, sort_rows, names_of, clamp_limit,
}

abbrev pub is_some : Option ℕ → Bool
is_some none = false
is_some (some n) = true

module _ (L : StorageLibrary) (c : Config) (up : Text → Bool) where
  -- `_signature`: the MAC of the payload without its signature.
  unfoldable pub signature : Payload → Option Text
  signature p = elim c.signing_key [
    | none ↦ none
    | some k ↦ some (L.hmac k (record p { signature = [] }))
  ]

  unfoldable pub signed : Payload → Payload
  unfolding signature
  signed p = elim (signature p) [ none ↦ p | some s ↦ record p { signature = s } ]

  unfoldable pub verify_signature : Payload → Result Fault (Unit {0})
  verify_signature p = elim (signature p) [
    | none ↦ ok tt
    | some expected ↦ do
      guard (not (p.signature == [])) integrity_error
      same ← compare_digest p.signature expected
      guard same integrity_error
  ]

  -- `json.loads(await get_bytes(...))`
  unfoldable pub get_json : Text → Objects → Result Fault Json
  get_json key s = get_bytes up key s >>= λ text. from_option other_error (L.loads text)

  -- Every exception of the `try` becomes a `StorageError`.
  abbrev pub or_storage_error {ℓ} : {A : Type ℓ} → Result Fault A → Result Fault A
  or_storage_error (ok a) = ok a
  or_storage_error (err e) = err storage_error

  abbrev pub as_object : Json → Result Fault Payload
  as_object (object p) = ok p
  as_object null = err integrity_error
  as_object other_json = err integrity_error

  unfoldable pub active_marker : Text → Text → Objects → Result Fault Payload
  active_marker project release s = do
    guard c.enabled storage_error
    safe_project project
    safe_release release
    json ← or_storage_error (get_json (marker_key project release) s)
    marker ← as_object json
    guard (is_text marker.project project && is_text marker.release release) integrity_error
    verify_signature marker
    guard (is_sha256 marker.sha256 && is_some marker.activated_at) integrity_error
    ok marker

  abbrev pub add_at :
      Text → Option ℕ → Result Fault (List (ℕ × Text)) → Result Fault (List (ℕ × Text))
  add_at name none rows = rows
  add_at name (some at) rows = rows >>= λ (r : List (ℕ × Text)). ok ((at, name) ∷ r)

  -- A marker that cannot be read gives no row; one without integrity stops the listing.
  abbrev pub add_row :
      Text → Result Fault Payload → Result Fault (List (ℕ × Text)) → Result Fault (List (ℕ × Text))
  add_row name (err storage_error) rows = rows
  add_row name (err integrity_error) rows = err integrity_error
  add_row name (err other_error) rows = rows
  add_row name (ok marker) rows = add_at name marker.activated_at rows

  unfoldable pub marker_rows : Text → Objects → List Text → Result Fault (List (ℕ × Text))
  marker_rows project s [] = ok []
  marker_rows project s (name ∷ names) =
      add_row name (active_marker project name s) (marker_rows project s names)

  unfoldable pub list_releases : Text → ℕ → Objects → Result Fault (List Text)
  list_releases project limit s = if not c.enabled then ok [] else (do
    safe_project project
    call up (folder project)
    let keys = L.list_keys (folder project) (min (clamp_limit limit * 5 + 50) 2500) s
    rows ← marker_rows project s (marker_names project keys)
    ok (take (clamp_limit limit) (names_of (sort_rows rows))))
