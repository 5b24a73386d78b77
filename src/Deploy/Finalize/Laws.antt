-- ===== src/Deploy/Finalize/Laws.antt =====
-- A new release is all or nothing: `_finalize_release` of src/titanbox/deploy.py either makes the
-- release current or leaves the symlink and the releases as they were.
use vpsssssskjwjw.Prelude.{
  max, ◌≡◌, ◌∙◌, refl, ap, Bool, true, Option, none, some, Text, text_eq, arith, contains,
  Bool-cases, inl, inr,
}
use vpsssssskjwjw.Prelude.Dict.{lookup}
use vpsssssskjwjw.Prelude.Result.{ok, err, Result-cases}
use vpsssssskjwjw.Deploy.Project.{
  candidate, active, Project, World, DeployError, Backup, no_backup, candidate_only, backup_warning,
  active_ok, commit_warning, DeployResult, Outcome, set_remote, restart_and_verify, protected,
  prune_releases, verify_release, restore, commit_failed,
}
use vpsssssskjwjw.Deploy.Project.Prune.{lookup-prune_loop}
use vpsssssskjwjw.Deploy.Project.Restore.{
  SameDisk, restart_and_verify-SameDisk, set_remote-SameDisk, Verifies, activate_release-ok,
  activate_release-err, restore-ok,
}
use vpsssssskjwjw.Deploy.Finalize.{
  raising, abandon, after_restore, after_restart, finish, commit, activate_and_commit,
  finalize_release,
}

-- A release is on the disk as it was.
abbrev pub Keeps : Option Text → Project → Project → Type 0
Keeps none q p = Unit
Keeps (some name) q p = lookup name q.releases ≡ lookup name p.releases

pub Keeps-intro :
    (c : Option Text) (q p : Project)
    → ((name : Text) → c ≡ some name → lookup name q.releases ≡ lookup name p.releases)
    → Keeps c q p
Keeps-intro none q p f = tt
Keeps-intro (some name) q p f = f name refl

pub Keeps-elim :
    (c : Option Text) (q p : Project) (name : Text)
    → Keeps c q p
    → c ≡ some name
    → lookup name q.releases ≡ lookup name p.releases
Keeps-elim none q p name k e = cc
Keeps-elim (some other) q p name k e = ground (arith, k, e)

protected-release :
    (release : Text) (previous : Option Text) → contains (protected release previous) release ≡ true
protected-release release none = ground arith
protected-release release (some previous) = ground arith

protected-previous :
    (release name : Text) (previous : Option Text)
    → previous ≡ some name
    → contains (protected release previous) name ≡ true
protected-previous release name none h = cc
protected-previous release name (some previous) h = ground (arith, h)

module _ (sha256 : Text → Text) where
  -- The release is current, and it and the one before it are on the disk, or nothing has changed.
  abbrev pub IsAtomic : Text → Project → Outcome DeployResult → Type 0
  IsAtomic release p (ok r, q) =
      (r.release ≡ release)
      × (r.previous_release ≡ p.current)
      × (q.current ≡ some release)
      × (lookup release q.releases ≡ lookup release p.releases)
      × Verifies sha256 (some release) q
      × Keeps p.current q p
  IsAtomic release p (err e, q) = SameDisk q p

  pub Verifies-lookup :
      (name : Text) (p q : Project)
      → lookup name q.releases ≡ lookup name p.releases
      → Verifies sha256 (some name) p
      → Verifies sha256 (some name) q
  unfolding verify_release
  Verifies-lookup name p q e (d, h) = (d, ground (arith, e, h))

  finish-IsAtomic :
      (w : World) (release : Text) (restarted : Bool) (b : Backup) (p q : Project)
      → q.current ≡ some release
      → q.releases ≡ p.releases
      → Verifies sha256 (some release) p
      → IsAtomic release p (finish sha256 w release p.current restarted b q)
  unfolding finish prune_releases
  finish-IsAtomic w release restarted b p q c r u =
      let kept = λ (name : Text) (h : contains (protected release p.current) name ≡ true).
        lookup-prune_loop name (max 2 w.keep_releases) 0 (protected release p.current) q.releases h
        ∙ ap (lookup name) r in
      let e = kept release (protected-release release p.current) in
      (
        refl,
        refl,
        c,
        e,
        Verifies-lookup release p (prune_releases w.keep_releases (protected release p.current) q) e
            u,
        Keeps-intro p.current (prune_releases w.keep_releases (protected release p.current) q) p
            (λ name g. kept name (protected-previous release name p.current g)),
      )

  pub Verifies-SameReleases :
      (previous : Option Text) (p q : Project)
      → q.releases ≡ p.releases
      → Verifies sha256 previous p
      → Verifies sha256 previous q
  unfolding verify_release
  Verifies-SameReleases none p q r v = tt
  Verifies-SameReleases (some name) p q r (d, h) = (d, rw r h)

  raising-IsAtomic :
      (e : DeployError) (release : Text) (p : Project) (o : Outcome (Unit {0}))
      → SameDisk o.1 p
      → IsAtomic release p (raising sha256 e o)
  raising-IsAtomic e release p (ok u, q) h = h
  raising-IsAtomic e release p (err f, q) h = h

  commit-IsAtomic :
      (w : World) (release : Text) (restarted : Bool) (p q : Project)
      → q.current ≡ some release
      → q.releases ≡ p.releases
      → Verifies sha256 p.current p
      → Verifies sha256 (some release) p
      → IsAtomic release p (commit sha256 w release p.current restarted q)
  unfolding commit
  commit-IsAtomic w release restarted p q c r v u =
      let abandoned = set_remote release w.abandon_left q in
      let (ac, ar) = set_remote-SameDisk release w.abandon_left q in
      let ar' = ar ∙ r in
      elim (Bool-cases w.promote_ok) [
        | inl e ↦ simp (e) (
            finish-IsAtomic w release restarted active_ok p (set_remote release (some active) q) c r
              u)
        | inr e ↦ elim (Bool-cases w.durability_required) [
          | inl f ↦
              let (_, rc, rr) =
                restore-ok sha256 w p.current abandoned
                  (Verifies-SameReleases p.current p abandoned ar' v) in
              simp (e, f)
                (raising-IsAtomic commit_failed release p (restore sha256 w p.current abandoned)
                  (rc, rr ∙ ar'))
          | inr f ↦
              simp (e, f)
                (finish-IsAtomic w release restarted commit_warning p abandoned (ac ∙ c) ar' u)
        ]
      ]

  IsAtomic-SameDisk :
      (release : Text) (p q : Project) (o : Outcome DeployResult)
      → SameDisk q p
      → IsAtomic release q o
      → IsAtomic release p o
  IsAtomic-SameDisk release p q (ok r, o) (c, s) (a, b, d, e, u, f) = (
    a,
    b ∙ c,
    d,
    e ∙ ap (lookup release) s,
    u,
    Keeps-intro p.current o p
        (λ name g. Keeps-elim q.current o q name f (c ∙ g) ∙ ap (lookup name) s),
  )
  IsAtomic-SameDisk release p q (err e, _) (c, s) (a, b) = (a ∙ c, b ∙ s)

  abandon-SameDisk :
      (w : World) (release : Text) (b : Backup) (p : Project)
      → SameDisk (abandon sha256 w release b p) p
  abandon-SameDisk w release no_backup p = (refl, refl)
  abandon-SameDisk w release candidate_only p = set_remote-SameDisk release w.abandon_left p
  abandon-SameDisk w release backup_warning p = (refl, refl)
  abandon-SameDisk w release active_ok p = (refl, refl)
  abandon-SameDisk w release commit_warning p = (refl, refl)

  after_restore-IsAtomic :
      (w : World) (release : Text) (b : Backup) (p : Project) (o : Outcome (Unit {0}))
      → SameDisk o.1 p
      → IsAtomic release p (after_restore sha256 w release b o)
  after_restore-IsAtomic w release b p (ok u, q) (c, r) =
      let (ac, ar) = abandon-SameDisk w release b q in (ac ∙ c, ar ∙ r)
  after_restore-IsAtomic w release b p (err e, q) h = h

  after_restart-IsAtomic :
      (w : World) (release : Text) (b : Backup) (p : Project) (o : Outcome Bool)
      → o.1.current ≡ some release
      → o.1.releases ≡ p.releases
      → Verifies sha256 p.current p
      → Verifies sha256 (some release) p
      → IsAtomic release p (after_restart sha256 w release p.current b o)
  after_restart-IsAtomic w release b p (err e, q) c r v u =
      let (_, rc, rr) = restore-ok sha256 w p.current q (Verifies-SameReleases p.current p q r v) in
      after_restore-IsAtomic w release b p (restore sha256 w p.current q) (rc, rr ∙ r)
  after_restart-IsAtomic w release candidate_only p (ok x, q) c r v u =
      commit-IsAtomic w release x p q c r v u
  after_restart-IsAtomic w release no_backup p (ok x, q) c r v u =
      finish-IsAtomic w release x no_backup p q c r u
  after_restart-IsAtomic w release backup_warning p (ok x, q) c r v u =
      finish-IsAtomic w release x backup_warning p q c r u
  after_restart-IsAtomic w release active_ok p (ok x, q) c r v u =
      finish-IsAtomic w release x active_ok p q c r u
  after_restart-IsAtomic w release commit_warning p (ok x, q) c r v u =
      finish-IsAtomic w release x commit_warning p q c r u

  activate_and_commit-IsAtomic :
      (w : World) (release : Text) (b : Backup) (p : Project)
      → Verifies sha256 p.current p
      → IsAtomic release p (activate_and_commit sha256 w release b p)
  unfolding activate_and_commit
  activate_and_commit-IsAtomic w release b p v =
      elim (Result-cases (verify_release sha256 release p)) [
        | inr (e, h) ↦ rw (activate_release-err sha256 release e p h) (refl, refl)
        | inl (d, h) ↦
            let (c, r) =
              restart_and_verify-SameDisk w.healthy (record p { current = some release }) in
            rw (activate_release-ok sha256 release d p h) (
              after_restart-IsAtomic w release b p
                (restart_and_verify w.healthy (record p { current = some release })) c r v (d, h))
      ]

  activate_and_commit-SameDisk :
      (w : World) (release : Text) (b : Backup) (p q : Project)
      → SameDisk q p
      → Verifies sha256 p.current p
      → IsAtomic release p (activate_and_commit sha256 w release b q)
  activate_and_commit-SameDisk w release b p q (c, r) v =
      IsAtomic-SameDisk release p q (activate_and_commit sha256 w release b q) (c, r)
        (activate_and_commit-IsAtomic w release b q
          (simp (c) (Verifies-SameReleases p.current p q r v)))

  -- If the release before the new one still verifies, then `_finalize_release` either returns a
  -- result, and then the new release is the current one, the old one is named as the one before it,
  -- and both are still on the disk; or it raises, and then the symlink and the releases are those
  -- from before, however the store, the runner and the restarts fare.
  pub finalize_release-IsAtomic :
      (w : World) (release : Text) (p : Project)
      → Verifies sha256 p.current p
      → IsAtomic release p (finalize_release sha256 w release p)
  unfolding finalize_release
  finalize_release-IsAtomic w release p v =
      let left = set_remote-SameDisk release w.backup_left p in
      elim (Bool-cases w.store_enabled) [
        | inr e ↦ simp (e) (activate_and_commit-IsAtomic w release no_backup p v)
        | inl e ↦ elim (Bool-cases w.backup_ok) [
          | inl f ↦
              simp (e, f)
                (activate_and_commit-SameDisk w release candidate_only p
                  (set_remote release (some candidate) p) (refl, refl) v)
          | inr f ↦ elim (Bool-cases w.durability_required) [
            | inl g ↦ simp (e, f, g) left
            | inr g ↦
                simp (e, f, g)
                  (activate_and_commit-SameDisk w release backup_warning p
                    (set_remote release w.backup_left p) left v)
          ]
        ]
      ]
