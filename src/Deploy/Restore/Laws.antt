-- ===== src/Deploy/Restore/Laws.antt =====
-- What `restore_backup` of src/titanbox/deploy.py brings back.
use vpsssssskjwjw.Prelude.{
  ℕ, ◌≡◌, refl, sym, Bool, true, false, not, Option, none, some, List, Text, text_eq, leb, length,
  if◌then◌else◌, Bool-cases, [], ◌∷◌, inl, inr, ◌⊎◌, arith,
}
use vpsssssskjwjw.Prelude.Dict.{erase}
use vpsssssskjwjw.Prelude.Result.{Result, ok, err, Result-cases}
use vpsssssskjwjw.Deploy.Paths.{validate_project_name, PathError}
use vpsssssskjwjw.Deploy.Archive.{
  Limits, Node, safe_extract_zip, flatten_single_root, validate_tree,
}
use vpsssssskjwjw.Deploy.Archive.Laws.{IsContained, safe_extract_zip-IsContained}
use vpsssssskjwjw.Deploy.Manifest.{Tree}
use vpsssssskjwjw.Deploy.Project.{
  Project, World, is_current, verify_release, DeployError, DeployResult,
}
use vpsssssskjwjw.Deploy.Project.Restore.{Verifies}
use vpsssssskjwjw.Deploy.Finalize.{deploy}
use vpsssssskjwjw.Deploy.Finalize.Safety.{IsDeployed, deploy-IsDeployed}
use vpsssssskjwjw.Deploy.Restore.{
  ArchiveLibrary, wants_latest, requested_name, latest_name, RestoreError, Restoration, staged_tree,
  deployed, named_project, deploy_zip, for_project, too_large, not_configured, archive_ceiling,
  chosen_release, after_download, after_choice, restore_backup,
}
use vpsssssskjwjw.Storage.{StorageLibrary, Config, Objects, Payload, Fault}
use vpsssssskjwjw.Storage.Releases.{download_archive}
use vpsssssskjwjw.Storage.Latest.{latest_release}
use vpsssssskjwjw.Storage.Integrity.{IsAuthentic, download_archive-IsAuthentic}

-- The project's disk as it was, less a half-finished release of the new name.
abbrev pub IsUntouched : Text → Project → Project → Type 0
IsUntouched name p q =
    (q.current ≡ p.current) × ((q.releases ≡ p.releases) ⊎ (q.releases ≡ erase name p.releases))

module _ (A : ArchiveLibrary) (sha256 : Text → Text) (limits : Limits) (max_upload_bytes : ℕ) where
  -- A tree that was staged from an archive that unpacks within the limits.
  pub record IsUnpacked (archive : Text) (t : Tree) : Type 0 where
    pub nodes : List Node
    pub unpacked : safe_extract_zip A.can_write A.unicode limits (A.entries archive) ≡ ok nodes
    pub contained : IsContained limits nodes
    pub checked : validate_tree A.parses A.sorted sha256 limits (flatten_single_root nodes) ≡ ok t

  staged-IsUnpacked :
      (archive : Text) (t : Tree)
      → staged_tree A sha256 limits max_upload_bytes archive ≡ some t
      → IsUnpacked archive t
  unfolding staged_tree
  staged-IsUnpacked archive t h =
      elim (Result-cases (safe_extract_zip A.can_write A.unicode limits (A.entries archive))) [
        | inr (e, f) ↦ absurd (cc (simp (f) at h))
        | inl (nodes, f) ↦
            elim (Result-cases
              (validate_tree A.parses A.sorted sha256 limits (flatten_single_root nodes))) [
                | inr (e, g) ↦ absurd (cc (simp (f, g) at h))
                | inl (u, g) ↦
                    let e : u ≡ t = cc (simp (f, g) at h) in
                    record {
                      nodes = nodes;
                      unpacked = f;
                      contained =
                          safe_extract_zip-IsContained A.can_write A.unicode limits
                            (A.entries archive) nodes f;
                      checked = rw (sym e) g;
                    }
              ]
      ]

  -- What has become of the project: the archive's tree is the current release, or nothing changed.
  abbrev pub IsTaken : Text → Text → Project → Restoration → Type 0
  IsTaken name archive p (ok r, q) =
      (t : Tree) × IsUnpacked archive t × IsDeployed sha256 name (some t) p (ok r, q)
  IsTaken name archive p (err e, q) = IsUntouched name p q

  deployed-IsTaken :
      (name archive : Text) (p : Project) (o : Result DeployError DeployResult × Project)
      (staged : Option Tree)
      → staged ≡ staged_tree A sha256 limits max_upload_bytes archive
      → IsDeployed sha256 name staged p o
      → IsTaken name archive p (deployed A sha256 limits max_upload_bytes o)
  unfolding verify_release
  deployed-IsTaken name archive p (err e, q) staged h d = (d.0, inr d.1)
  deployed-IsTaken name archive p (ok r, q) (some t) h d =
      (t, staged-IsUnpacked archive t (sym h), d)
  deployed-IsTaken name archive p (ok r, q) none h d =
      let (digest, v) = d.3 in absurd (ground (arith, d.2, v))

  named-IsTaken :
      (name archive : Text) (p : Project) (r : Result PathError Text) (o : Restoration)
      → IsTaken name archive p o
      → IsTaken name archive p (named_project A sha256 limits max_upload_bytes r o p)
  named-IsTaken name archive p (err e) o t = (refl, inl refl)
  named-IsTaken name archive p (ok project) o t = t

  sized-IsTaken :
      (name archive : Text) (p : Project) (fits : Bool) (o : Restoration)
      → IsTaken name archive p o
      → IsTaken name archive p (if not fits then (err too_large, p) else o)
  sized-IsTaken name archive p true o t = t
  sized-IsTaken name archive p false o t = (refl, inl refl)

  deploy_zip-IsTaken :
      (w : World) (operation trusted : Bool) (project name archive : Text) (p : Project)
      → is_current name p.current ≡ false
      → Verifies sha256 p.current p
      → IsTaken name archive p
          (deploy_zip A sha256 limits max_upload_bytes w operation trusted project name archive p)
  unfolding deploy_zip
  deploy_zip-IsTaken w operation trusted project name archive p new v =
      named-IsTaken name archive p (validate_project_name A.unicode project) _ (
        sized-IsTaken name archive p
          (leb (length archive) (archive_ceiling trusted limits max_upload_bytes)) _
          (deployed-IsTaken name archive p
            (deploy sha256 w operation name (staged_tree A sha256 limits max_upload_bytes archive)
              p)
            (staged_tree A sha256 limits max_upload_bytes archive) refl
            (deploy-IsDeployed sha256 w operation name
              (staged_tree A sha256 limits max_upload_bytes archive) p new v)))

module _ (L : StorageLibrary) (c : Config) (up : Text → Bool) (A : ArchiveLibrary) (limits : Limits)
    (max_upload_bytes : ℕ) where
  -- The release is the one that is asked for by its name, or else the one that `latest_release` names.
  abbrev pub IsChosen : Text → Option Text → Objects → Text → Type 0
  IsChosen project request before release =
      ((wants_latest request ≡ false) × (request ≡ some release))
      ⊎ ((wants_latest request ≡ true)
          × ((latest_release L c up project before).0 ≡ ok (some release)))

  requested_name-some :
      (request : Option Text)
      → wants_latest request ≡ false
      → request ≡ some (requested_name request)
  requested_name-some none h = absurd (cc h)
  requested_name-some (some release) h = refl

  latest_name-ok :
      (o : Result Fault (Option Text) × Objects) (release : Text) (s : Objects)
      → latest_name o ≡ (ok release, s)
      → o.0 ≡ ok (some release)
  latest_name-ok (err f, t) release s h = absurd (cc h)
  latest_name-ok (ok none, t) release s h = absurd (cc h)
  latest_name-ok (ok (some []), t) release s h = absurd (cc h)
  latest_name-ok (ok (some (x ∷ r)), t) release s h = cc h

  chosen_release-IsChosen :
      (project : Text) (request : Option Text) (before : Objects) (release : Text) (s : Objects)
      → chosen_release L c up A limits max_upload_bytes project request before ≡ (ok release, s)
      → IsChosen project request before release
  unfolding chosen_release
  chosen_release-IsChosen project request before release s h =
      elim (Bool-cases (wants_latest request)) [
        | inl w ↦
            inr (w, latest_name-ok (latest_release L c up project before) release s (simp (w) at h))
        | inr w ↦
            let e = requested_name-some request w in
            let n : requested_name request ≡ release = cc (simp (w) at h) in inl (w, cc (e, n))
      ]

  -- What a restoration promises, with the store after it.
  abbrev pub IsRestored :
      Text → Option Text → Objects → Text → Project → Restoration × Objects → Type 0
  IsRestored project request before name p ((ok r, q), s) =
      (release : Text) × (metadata : Payload) × (archive : Text) × IsChosen project request before
        release
      × IsAuthentic L c up project release s metadata archive
      × IsTaken A L.sha256 limits max_upload_bytes name archive p (ok r, q)
  IsRestored project request before name p ((err e, q), s) = IsUntouched name p q

  taken-IsRestored :
      (project name release : Text) (request : Option Text) (before : Objects) (p : Project)
      (s : Objects) (metadata : Payload) (archive : Text) (o : Restoration)
      → IsChosen project request before release
      → IsAuthentic L c up project release s metadata archive
      → IsTaken A L.sha256 limits max_upload_bytes name archive p o
      → IsRestored project request before name p (o, s)
  taken-IsRestored project name release request before p s metadata archive (err e, q) h a t = t
  taken-IsRestored project name release request before p s metadata archive (ok r, q) h a t =
      (release, metadata, archive, h, a, t)

  module _ (w : World) (operation : Bool) (project name : Text) (p : Project)
      (new : is_current name p.current ≡ false) (v : Verifies L.sha256 p.current p) where
    downloaded-IsRestored :
        (request : Option Text) (before : Objects) (release : Text) (s : Objects)
        (r : Result Fault (Payload × Text))
        → IsChosen project request before release
        → download_archive L c up project release s ≡ r
        → IsRestored project request before name p
            (after_download L c up A limits max_upload_bytes w operation project name p r, s)
    downloaded-IsRestored request before release s (err f) k h = (refl, inl refl)
    downloaded-IsRestored request before release s (ok (metadata, archive)) k h =
        taken-IsRestored project name release request before p s metadata archive _ k
          (download_archive-IsAuthentic L c up project release s metadata archive h)
          (deploy_zip-IsTaken A L.sha256 limits max_upload_bytes w operation true project name
            archive p new v)

    chosen-IsRestored :
        (request : Option Text) (before : Objects) (o : Result RestoreError Text × Objects)
        → chosen_release L c up A limits max_upload_bytes project request before ≡ o
        → IsRestored project request before name p
            (after_choice L c up A limits max_upload_bytes w operation project name p o)
    chosen-IsRestored request before (err e, s) h = (refl, inl refl)
    chosen-IsRestored request before (ok release, s) h =
        downloaded-IsRestored request before release s (download_archive L c up project release s)
          (chosen_release-IsChosen project request before release s h) refl

    for_project-IsRestored :
        (request : Option Text) (before s : Objects) (r : Result PathError Text)
        (o : Restoration × Objects)
        → IsRestored project request before name p o
        → IsRestored project request before name p
            (for_project L c up A limits max_upload_bytes r o p s)
    for_project-IsRestored request before s (err e) o t = (refl, inl refl)
    for_project-IsRestored request before s (ok valid) o t = t

    enabled-IsRestored :
        (request : Option Text) (before s : Objects) (enabled : Bool) (o : Restoration × Objects)
        → IsRestored project request before name p o
        → IsRestored project request before name p
            (if not enabled then ((err not_configured, p), s) else o)
    enabled-IsRestored request before s true o t = t
    enabled-IsRestored request before s false o t = (refl, inl refl)

    -- A restoration under a new name, where the current release verifies, ends in one of two ways. If it
    -- returns, then the release that was asked for by its name, or else the one that `latest_release`
    -- names in the store, has a backup that is active, signed (if there is a key) and has its
    -- checksum and size; the bytes of that backup unpacked within the limits; and their tree is the
    -- current release, verifies, and the release before it is still there. If it raises, the current
    -- release is the one before, and no other release changed but a leftover of the new name. Calls
    -- of the store may fail on any keys; the back-up, the promotion and the restarts of the deployment
    -- may fail; the replacement of the symlink does not.
    pub restore_backup-IsRestored :
        (release : Option Text) (s : Objects)
        → IsRestored project release s name p
            (restore_backup L c up A limits max_upload_bytes w operation project release name p s)
    unfolding restore_backup
    restore_backup-IsRestored release s =
        for_project-IsRestored release s s (validate_project_name A.unicode project) _ (
          enabled-IsRestored release s s c.enabled _ (
            chosen-IsRestored release s
              (chosen_release L c up A limits max_upload_bytes project release s) refl))
