-- ===== src/Storage/Integrity.antt =====
-- What a successful restore from src/titanbox/storage.py has checked, and what
-- an abandoned release leaves.
use vpsssssskjwjw.Prelude.{
  ◌≡◌, refl, Bool, true, false, ◌&&◌, Option, none, some, [], Text, text_eq, nat_eq, ◌==◌, codes,
  length, arith, if◌then◌else◌, inl, inr,
}
use vpsssssskjwjw.Prelude.Dict.{lookup, lookup-erase}
use vpsssssskjwjw.Prelude.Result.{ok, err, guard, Result-cases}
use vpsssssskjwjw.Storage.{
  Payload, Fault, storage_error, Objects, StorageLibrary, Config, safe_project, safe_release,
  zip_key, metadata_key, marker_key, is_text, get_bytes, delete_key, compare_digest,
}
use vpsssssskjwjw.Storage.Markers.{signature, verify_signature, get_json, active_marker}
use vpsssssskjwjw.Storage.Releases.{
  check_metadata, check_archive, fetch, read_metadata, download_archive, abandon_release,
  delete_release,
}

-- `if not b: raise` was passed.
guard-eq-ok : (b : Bool) (e : Fault) → guard b e ≡ ok tt → b ≡ true
guard-eq-ok true e h = refl
guard-eq-ok false e h = cc

module _ (L : StorageLibrary) (c : Config) (up : Text → Bool) where
  abbrev IsSignedBy : Option Text → Payload → Type 0
  IsSignedBy none p = Unit
  IsSignedBy (some key) p = p.signature ≡ L.hmac key (record p { signature = [] })

  -- The signature is the payload's own under the key, if there is a key.
  abbrev pub IsSigned : Payload → Type 0
  IsSigned p = IsSignedBy c.signing_key p

  verify_signature-IsSigned : (p : Payload) → verify_signature L c up p ≡ ok tt → IsSigned p
  unfolding verify_signature signature compare_digest
  verify_signature-IsSigned p h = go c.signing_key refl
    where
      go : (k : Option Text) → c.signing_key ≡ k → IsSignedBy k p
      go none e = tt
      go (some key) e = ground (arith, h, e)

  -- What `download_archive` of a release promises of its result.
  pub record IsAuthentic (project release : Text) (s : Objects) (metadata : Payload)
      (archive : Text) : Type 0 where
    pub marker : Payload
    pub marker_read : active_marker L c up project release s ≡ ok marker
    pub metadata_signed : IsSigned metadata
    pub same_project : is_text metadata.project project ≡ true
    pub same_release : is_text metadata.release release ≡ true
    pub is_active : metadata.state ≡ codes "active"
    pub same_checksum : marker.sha256 ≡ metadata.sha256
    pub stored : lookup (zip_key project release) s ≡ some archive
    pub checksum : L.sha256 archive ≡ metadata.sha256
    pub size : metadata.size ≡ some (length archive)

  check_metadata-ok :
      (project release : Text) (marker m : Payload)
      → check_metadata L c up project release marker m ≡ ok tt
      → IsSigned m
        × (is_text m.project project ≡ true)
        × (is_text m.release release ≡ true)
        × (m.state ≡ codes "active")
        × (marker.sha256 ≡ m.sha256)
  unfolding check_metadata
  check_metadata-ok project release marker m h = (
    verify_signature-IsSigned m (ground (arith, h)),
    ground (arith, h),
    ground (arith, h),
    ground (arith, h),
    ground (arith, h),
  )

  fetch-ok :
      (project release : Text) (s : Objects) (m metadata : Payload) (archive : Text)
      → fetch L c up project release s m ≡ ok (metadata, archive)
      → (m ≡ metadata)
        × (lookup (zip_key project release) s ≡ some archive)
        × (L.sha256 archive ≡ metadata.sha256)
        × (metadata.size ≡ some (length archive))
  unfolding fetch check_archive
  fetch-ok project release s m metadata archive h =
      (ground (arith, h), ground (arith, h), ground (arith, h), ground (arith, h))

  -- If `download_archive` returns metadata and an archive, then the marker of the release was read and
  -- accepted, the metadata is signed with the key (if there is one), names this project and this
  -- release, is active and has the checksum of the marker, and the archive is what the store holds,
  -- with the checksum and the size of the metadata.
  pub download_archive-IsAuthentic :
      (project release : Text) (s : Objects) (metadata : Payload) (archive : Text)
      → download_archive L c up project release s ≡ ok (metadata, archive)
      → IsAuthentic project release s metadata archive
  unfolding download_archive
  download_archive-IsAuthentic project release s metadata archive h =
      elim (Result-cases (active_marker L c up project release s)) [
        | inr (e, f) ↦ cc (h, f)
        | inl (marker, f) ↦ elim (Result-cases (read_metadata L c up project release s)) [
          | inr (e, g) ↦ cc (h, f, g)
          | inl (m, g) ↦ elim (Result-cases (check_metadata L c up project release marker m)) [
            | inr (e, k) ↦ cc (h, f, g, k)
            | inl (u, k) ↦
                let (same, stored, sum, size) =
                  fetch-ok project release s m metadata archive (ground (arith, h, f, g, k)) in
                let k' : check_metadata L c up project release marker metadata ≡ ok tt =
                  simp (same) at k in
                let (signed_ok, p, r, active, marked) =
                  check_metadata-ok project release marker metadata k' in
                record {
                  marker = marker;
                  marker_read = f;
                  metadata_signed = signed_ok;
                  same_project = p;
                  same_release = r;
                  is_active = active;
                  same_checksum = marked;
                  stored = stored;
                  checksum = sum;
                  size = size;
                }
          ]
        ]
      ]

  lookup-delete_key :
      (j key : Text) (s : Objects)
      → lookup j (delete_key up key s) ≡ (if (j == key) && up key then none else lookup j s)
  unfolding delete_key
  lookup-delete_key j key s = ground (arith, lookup-erase j key s)

  lookup-delete_release :
      (project release : Text) (s : Objects)
      → up (marker_key project release) ≡ true
      → lookup (marker_key project release) (delete_release L c up project release s) ≡ none
  unfolding delete_release
  lookup-delete_release project release s u =
      let k = marker_key project release in
      let s₁ = delete_key up k s in
      let s₂ = delete_key up (metadata_key project release) s₁ in
      ground (
        arith,
        u,
        lookup-delete_key k k s,
        lookup-delete_key k (metadata_key project release) s₁,
        lookup-delete_key k (zip_key project release) s₂,
      )

  active_marker-none :
      (project release : Text) (s : Objects)
      → c.enabled ≡ true
      → safe_project project ≡ ok tt
      → safe_release release ≡ ok tt
      → lookup (marker_key project release) s ≡ none
      → active_marker L c up project release s ≡ err storage_error
  unfolding active_marker get_json get_bytes
  active_marker-none project release s e p r n = ground (arith, e, p, r, n)

  -- Once `abandon_release` could delete the marker of a release, the release is no longer active:
  -- reading its marker raises. The two names are valid and the store is enabled.
  pub abandon_release-inactive :
      (project release : Text) (s : Objects)
      → c.enabled ≡ true
      → safe_project project ≡ ok tt
      → safe_release release ≡ ok tt
      → up (marker_key project release) ≡ true
      → active_marker L c up project release (abandon_release L c up project release s)
        ≡ err storage_error
  unfolding abandon_release
  abandon_release-inactive project release s e p r u =
      active_marker-none project release (abandon_release L c up project release s) e p r
        (simp (e, p, r) (lookup-delete_release project release s u))
