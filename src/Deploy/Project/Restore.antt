-- ===== src/Deploy/Project/Restore.antt =====
-- `_activate_release`, `_restart_and_verify` and `_restore_after_failed_activation` of
-- src/titanbox/deploy.py as to the symlink and the releases.
use vpsssssskjwjw.Prelude.{◌≡◌, refl, Bool, Option, none, some, Text, text_eq, arith}
use vpsssssskjwjw.Prelude.Result.{ok, err}
use vpsssssskjwjw.Deploy.Manifest.{Failure}
use vpsssssskjwjw.Deploy.Project.{
  Remote, Project, World, integrity, set_remote, restart_and_verify, verify_release,
  activate_release, restore,
}

-- The symlink and the releases are the same.
abbrev pub SameDisk : Project → Project → Type 0
SameDisk p q = (p.current ≡ q.current) × (p.releases ≡ q.releases)

pub restart_and_verify-SameDisk : (h : Bool) (p : Project) → SameDisk (restart_and_verify h p).1 p
unfolding restart_and_verify
restart_and_verify-SameDisk h p = (ground arith, ground arith)

pub set_remote-SameDisk :
    (release : Text) (r : Option Remote) (p : Project) → SameDisk (set_remote release r p) p
set_remote-SameDisk release none p = (refl, refl)
set_remote-SameDisk release (some r) p = (refl, refl)

module _ (sha256 : Text → Text) where
  -- The release to go back to is none, or one that verifies.
  abbrev pub Verifies : Option Text → Project → Type 0
  Verifies none p = Unit
  Verifies (some name) p = (digest : Text) × (verify_release sha256 name p ≡ ok digest)

  -- A release that verifies is activated.
  pub activate_release-ok :
      (name digest : Text) (p : Project)
      → verify_release sha256 name p ≡ ok digest
      → activate_release sha256 name p ≡ (ok p.current, record p { current = some name })
  unfolding activate_release
  activate_release-ok name digest p h = ground (arith, h)

  pub activate_release-err :
      (name : Text) (e : Failure) (p : Project)
      → verify_release sha256 name p ≡ err e
      → activate_release sha256 name p ≡ (err (integrity e), p)
  unfolding activate_release
  activate_release-err name e p h = ground (arith, h)

  pub restore-ok :
      (w : World) (previous : Option Text) (p : Project)
      → Verifies previous p
      → ((restore sha256 w previous p).0 ≡ ok tt)
        × ((restore sha256 w previous p).1.current ≡ previous)
        × ((restore sha256 w previous p).1.releases ≡ p.releases)
  unfolding restore
  restore-ok w none p v = (refl, refl, refl)
  restore-ok w (some name) p (d, h) =
      let a = activate_release-ok name d p h in
      let s = restart_and_verify-SameDisk w.healthy_restored (record p { current = some name }) in
      (ground (arith, a, s), ground (arith, a, s), ground (arith, a, s))
