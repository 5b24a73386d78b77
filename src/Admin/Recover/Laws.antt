-- ===== src/Admin/Recover/Laws.antt =====
-- What a queued rollback of src/titanbox/plugins/deploy_admin.py comes to.
use vpsssssskjwjw.Prelude.{
  ℕ, ◌≡◌, ◌∙◌, ap, Bool, true, false, Option, none, some, List, [], ◌∷◌, Text, text_eq, contains,
  Bool-cases, inl, inr, ◌⊎◌,
}
use vpsssssskjwjw.Prelude.Dict.{erase}
use vpsssssskjwjw.Prelude.Result.{Result, ok, err}
use vpsssssskjwjw.Deploy.Archive.{Limits}
use vpsssssskjwjw.Deploy.Project.{Project, World, is_current, DeployError, DeployResult, Outcome}
use vpsssssskjwjw.Deploy.Project.Restore.{Verifies, SameDisk}
use vpsssssskjwjw.Deploy.Finalize.Laws.{Verifies-SameReleases}
use vpsssssskjwjw.Deploy.Rollback.{rollback}
use vpsssssskjwjw.Deploy.Rollback.Laws.{IsNamed, IsRolled, rollback-IsNamed, rollback-IsRolled}
use vpsssssskjwjw.Deploy.Restore.{ArchiveLibrary, RestoreError, Restoration}
use vpsssssskjwjw.Deploy.Restore.Laws.{IsUntouched, IsRestored, restore_backup-IsRestored}
use vpsssssskjwjw.Storage.{StorageLibrary, Config, Objects}
use vpsssssskjwjw.Admin.Recover.{
  list_backups, after_listing, after_refusal, after_rollback, do_rollback,
}

module _ (L : StorageLibrary) (c : Config) (up : Text → Bool) (A : ArchiveLibrary) (limits : Limits)
    (max_upload_bytes : ℕ) where
  -- A rollback to the release that was asked for, or a restoration of it onto the same disk, or no
  -- change but to leftovers of the new name.
  abbrev pub IsRecovered :
      Text → Option Text → Objects → Text → Project → Restoration × Objects → Type 0
  IsRecovered project release stored name p ((ok r, q), s) =
      (IsNamed release (ok r, q) × IsRolled L.sha256 p (ok r, q))
      ⊎ ((before : Project) × SameDisk before p
          × IsRestored L c up A limits max_upload_bytes project release stored name before
              ((ok r, q), s))
  IsRecovered project release stored name p ((err e, q), s) = IsUntouched name p q

  restored-IsRecovered :
      (project : Text) (release : Option Text) (stored : Objects) (name : Text) (p q : Project)
      (o : Restoration × Objects)
      → SameDisk q p
      → IsRestored L c up A limits max_upload_bytes project release stored name q o
      → IsRecovered project release stored name p o
  restored-IsRecovered project release stored name p q ((ok r, t), s) d i = inr (q, d, i)
  restored-IsRecovered project release stored name p q ((err e, t), s) d (h, inl k) =
      (h ∙ d.0, inl (k ∙ d.1))
  restored-IsRecovered project release stored name p q ((err e, t), s) d (h, inr k) =
      (h ∙ d.0, inr (k ∙ ap (erase name) d.1))

  module _ (w : World) (project name : Text) (p : Project) (new : is_current name p.current ≡ false)
      (v : Verifies L.sha256 p.current p) where
    listing-IsRecovered :
        (release : Text) (q : Project) (e : DeployError) (s : Objects)
        (names : Result RestoreError (List Text))
        → SameDisk q p
        → IsRecovered project
            (some release)
            s
            name
            p
            (after_listing L c up A limits max_upload_bytes w project release name q e s names)
    listing-IsRecovered release q e s (err f) d = (d.0, inl d.1)
    listing-IsRecovered release q e s (ok names) d = elim (Bool-cases (contains names release)) [
      | inr m ↦ rw m (d.0, inl d.1)
      | inl m ↦
          let n : is_current name q.current ≡ false = rw (d.0) new in
          let u : Verifies L.sha256 q.current q =
            simp (d.0) (Verifies-SameReleases L.sha256 p.current p q d.1 v) in
          rw m (
            restored-IsRecovered project (some release) s name p q _ d (
              restore_backup-IsRestored L c up A limits max_upload_bytes w true project name q n u
                (some release) s))
    ]

    refusal-IsRecovered :
        (operation : Bool) (release : Option Text) (q : Project) (e : DeployError) (s : Objects)
        → SameDisk q p
        → IsRecovered project release s name p
            (after_refusal L c up A limits max_upload_bytes w operation project release name q e s)
    refusal-IsRecovered true (some (x ∷ release)) q e s d =
        listing-IsRecovered (x ∷ release) q e s
          (list_backups L c up A limits max_upload_bytes project 100 s) d
    refusal-IsRecovered true (some []) q e s d = (d.0, inl d.1)
    refusal-IsRecovered true none q e s d = (d.0, inl d.1)
    refusal-IsRecovered false (some []) q e s d = (d.0, inl d.1)
    refusal-IsRecovered false (some (x ∷ release)) q e s d = (d.0, inl d.1)
    refusal-IsRecovered false none q e s d = (d.0, inl d.1)

    rolled-IsRecovered :
        (operation : Bool) (release : Option Text) (s : Objects) (o : Outcome DeployResult)
        → IsNamed release o
        → IsRolled L.sha256 p o
        → IsRecovered project release s name p
            (after_rollback L c up A limits max_upload_bytes w operation project release name s o)
    rolled-IsRecovered operation release s (ok r, q) n i = inl (n, i)
    rolled-IsRecovered operation release s (err e, q) n d =
        refusal-IsRecovered operation release q e s d

    -- A rollback of the plugin, with a restoration to a new name in reserve, where the current release
    -- verifies. If it returns, then either a release on the disk, which is the one that was asked for
    -- if one was named, is current, verifies, and the result names the one before it; or the backup
    -- of the release that was asked for (the newest one, if that is called `latest`) is authentic and
    -- has been restored onto the same disk. If it raises, the current release is the one before, and
    -- no release changed but a leftover of the new name. Calls of the store may fail on any keys, and
    -- restarts, back-ups and promotions may fail; the replacement of the symlink does not.
    pub do_rollback-IsRecovered :
        (w0 : World) (idempotent operation : Bool) (release : Option Text) (s : Objects)
        → IsRecovered project release s name p (
            do_rollback L c up A limits max_upload_bytes w0 w idempotent operation project release
              name p s)
    unfolding do_rollback
    do_rollback-IsRecovered w0 idempotent operation release s =
        rolled-IsRecovered operation release s (rollback L.sha256 w0 idempotent release p)
          (rollback-IsNamed L.sha256 w0 idempotent release p)
          (rollback-IsRolled L.sha256 w0 idempotent release p v)
