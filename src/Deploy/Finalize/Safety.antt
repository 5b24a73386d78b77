-- ===== src/Deploy/Finalize/Safety.antt =====
-- `deploy_zip` of src/titanbox/deploy.py is all or nothing, too, and the current release verifies
-- at all times.
use vpsssssskjwjw.Prelude.{
  ◌≡◌, ◌∙◌, refl, ap, Bool, true, false, ◌&&◌, ◌||◌, not, ◌==◌, Option, none, some, [], ◌∷◌, Text,
  text_eq, arith, contains,
}
use vpsssssskjwjw.Prelude.Dict.{Dict, lookup, erase, lookup-erase}
use vpsssssskjwjw.Prelude.Result.{ok, err}
use vpsssssskjwjw.Deploy.Manifest.{Tree, keys}
use vpsssssskjwjw.Deploy.Project.{Project, World, DeployResult, Outcome, is_current}
use vpsssssskjwjw.Deploy.Project.Restore.{Verifies}
use vpsssssskjwjw.Deploy.Finalize.{cleanup, finalize_release, deploy}
use vpsssssskjwjw.Deploy.Finalize.Laws.{
  Keeps, Keeps-intro, Keeps-elim, IsAtomic, Verifies-lookup, finalize_release-IsAtomic,
}

module _ (sha256 : Text → Text) where
  -- The staged tree is the current release and the one before it is on the disk, or the symlink is as
  -- before and a directory with the name of the new release is gone.
  abbrev pub IsDeployed : Text → Option Tree → Project → Outcome DeployResult → Type 0
  IsDeployed release staged p (ok r, q) =
      (r.previous_release ≡ p.current)
      × (q.current ≡ some release)
      × (lookup release q.releases ≡ staged)
      × Verifies sha256 (some release) q
      × Keeps p.current q p
  IsDeployed release staged p (err e, q) =
      (q.current ≡ p.current) × (q.releases ≡ erase release p.releases)

  abbrev with_release : Text → Tree → Project → Project
  with_release release t p = record p { releases = (release, t) ∷ erase release p.releases }

  erase-erase :
      (release : Text) (d : Dict Text Tree) → erase release (erase release d) ≡ erase release d
  unfolding erase
  erase-erase release [] = refl
  erase-erase release ((k, t) ∷ d) = ground (arith, erase-erase release d)

  erase-cons :
      (release : Text) (t : Tree) (d : Dict Text Tree)
      → erase release ((release, t) ∷ d) ≡ erase release d
  unfolding erase
  erase-cons release t d = ground arith

  lookup-with_release :
      (name release : Text) (t : Tree) (p : Project)
      → p.current ≡ some name
      → is_current release p.current ≡ false
      → lookup name (with_release release t p).releases ≡ lookup name p.releases
  unfolding lookup
  lookup-with_release name release t p c h =
      let g : (name == release) ≡ false = simp (c) at h in
      ground (arith, g, lookup-erase name release p.releases)

  Verifies-with_release :
      (c : Option Text) (release : Text) (t : Tree) (p : Project)
      → p.current ≡ c
      → is_current release p.current ≡ false
      → Verifies sha256 c p
      → Verifies sha256 c (with_release release t p)
  Verifies-with_release none release t p e h v = tt
  Verifies-with_release (some name) release t p e h v =
      Verifies-lookup sha256 name p (with_release release t p)
        (lookup-with_release name release t p e h) v

  cleanup-IsDeployed :
      (release : Text) (t : Tree) (p : Project) (o : Outcome DeployResult)
      → is_current release p.current ≡ false
      → IsAtomic sha256 release (with_release release t p) o
      → IsDeployed release (some t) p (cleanup sha256 release o)
  unfolding lookup
  cleanup-IsDeployed release t p (ok r, q) h (a, b, c, l, v, f) = (
    b,
    c,
    ground (arith, l),
    v,
    Keeps-intro p.current q p (λ name e.
        Keeps-elim p.current q (with_release release t p) name f e
        ∙ lookup-with_release name release t p e h),
  )
  cleanup-IsDeployed release t p (err x, q) h (c, s) =
      let n : is_current release q.current ≡ false = simp (c) h in
      let e = erase-erase release p.releases in
      simp (n) (c, ap (erase release) s ∙ erase-cons release t (erase release p.releases) ∙ e)

  -- Without an operation id, or for another release, the tree is staged anew.
  restaged : (known operation c : Bool) → c ≡ false → (not known || not (operation && c)) ≡ true
  restaged known operation c h = ground (arith, h)

  -- A deployment under a name that is not the current release's, where the current release (if there
  -- is one) verifies: `deploy_zip` returns a result only if the tree was staged, and then the release
  -- is that tree, is current and verifies, and the release before it is named and still on the disk.
  -- If it raises, the symlink points where it did, and nothing but the releases before is left, less
  -- what an earlier attempt had left under the new name. The store, the runner and the restarts may
  -- fail in any way.
  pub deploy-IsDeployed :
      (w : World) (operation : Bool) (release : Text) (staged : Option Tree) (p : Project)
      → is_current release p.current ≡ false
      → Verifies sha256 p.current p
      → IsDeployed release staged p (deploy sha256 w operation release staged p)
  unfolding deploy
  deploy-IsDeployed w operation release none p h v =
      simp
        (restaged (contains (keys p.releases) release) operation (is_current release p.current) h)
        (simp (h) (refl, erase-erase release p.releases))
  deploy-IsDeployed w operation release (some t) p h v =
      simp
        (restaged (contains (keys p.releases) release) operation (is_current release p.current) h)
        (cleanup-IsDeployed release t p
          (finalize_release sha256 w release (with_release release t p)) h
          (finalize_release-IsAtomic sha256 w release (with_release release t p)
            (Verifies-with_release p.current release t p refl h v)))
