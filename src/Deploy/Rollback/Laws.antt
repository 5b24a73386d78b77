-- ===== src/Deploy/Rollback/Laws.antt =====
-- `rollback` of src/titanbox/deploy.py is all or nothing.
use vpsssssskjwjw.Prelude.{
  ◌≡◌, ◌∙◌, refl, sym, Bool, ◌==◌, Option, none, some, List, [], ◌∷◌, Text, text_eq, contains,
  Bool-cases, inl, inr, arith, nat_eq,
}
use vpsssssskjwjw.Prelude.Result.{ok, err, Result-cases}
use vpsssssskjwjw.Deploy.Manifest.{keys}
use vpsssssskjwjw.Deploy.Project.{
  Project, World, DeployResult, Outcome, restart_and_verify, verify_release,
}
use vpsssssskjwjw.Deploy.Project.Restore.{
  SameDisk, restart_and_verify-SameDisk, Verifies, activate_release-ok, activate_release-err,
}
use vpsssssskjwjw.Deploy.Finalize.Laws.{Verifies-SameReleases}
use vpsssssskjwjw.Deploy.Rollback.{
  roll_forward, after_restart, roll_to, after_same, roll_same, roll_named, target, roll_target,
  roll_listed, roll_from, rollback,
}

-- A result is of the release that was named.
abbrev pub IsNamed : Option Text → Outcome DeployResult → Type 0
IsNamed none o = Unit
IsNamed (some name) (ok r, q) = r.release ≡ name
IsNamed (some name) (err e, q) = Unit

module _ (sha256 : Text → Text) where
  result-IsNamed :
      (name : Text) (o : Outcome DeployResult)
      → ((r : DeployResult) (q : Project) → o ≡ (ok r, q) → r.release ≡ name)
      → IsNamed (some name) o
  result-IsNamed name (ok r, q) h = h r q refl
  result-IsNamed name (err e, q) h = tt

  roll_named_release :
      (w : World) (idempotent : Bool) (current name : Text) (p : Project) (r : DeployResult)
      (q : Project)
      → roll_named sha256 w idempotent current name p ≡ (ok r, q)
      → r.release ≡ name
  unfolding roll_named roll_same roll_to roll_forward
  roll_named_release w idempotent current name p r q h = ground (arith, h)

  roll_listed-IsNamed :
      (w : World) (idempotent : Bool) (current name : Text) (names : List Text) (p : Project)
      → IsNamed (some name) (roll_listed sha256 w idempotent current (some name) names p)
  roll_listed-IsNamed w idempotent current name [] p = tt
  roll_listed-IsNamed w idempotent current name (x ∷ names) p =
      result-IsNamed name _ (roll_named_release w idempotent current name p)

  roll_from-IsNamed :
      (w : World) (idempotent : Bool) (c : Option Text) (name : Text) (p : Project)
      → IsNamed (some name) (roll_from sha256 w idempotent c (some name) p)
  roll_from-IsNamed w idempotent none name p = tt
  roll_from-IsNamed w idempotent (some current) name p =
      roll_listed-IsNamed w idempotent current name (keys p.releases) p

  pub rollback-IsNamed :
      (w : World) (idempotent : Bool) (release : Option Text) (p : Project)
      → IsNamed release (rollback sha256 w idempotent release p)
  unfolding rollback
  rollback-IsNamed w idempotent none p = tt
  rollback-IsNamed w idempotent (some name) p = roll_from-IsNamed w idempotent p.current name p

  -- The result's release is current and verifies, and the result names the one before it, or the
  -- symlink is as before; the releases are as before in any case.
  abbrev pub IsRolled : Project → Outcome DeployResult → Type 0
  IsRolled p (ok r, q) =
      (q.current ≡ some r.release)
      × (r.previous_release ≡ p.current)
      × (q.releases ≡ p.releases)
      × Verifies sha256 (some r.release) q
  IsRolled p (err e, q) = SameDisk q p

  roll_forward-IsRolled :
      (w : World) (current : Text) (p q : Project)
      → p.current ≡ some current
      → q.releases ≡ p.releases
      → Verifies sha256 (some current) p
      → IsRolled p (roll_forward sha256 w current q)
  unfolding roll_forward
  roll_forward-IsRolled w current p q c r v =
      let (d, h) = Verifies-SameReleases sha256 (some current) p q r v in
      let (sc, sr) =
        restart_and_verify-SameDisk w.healthy_restored (record q { current = some current }) in
      rw (activate_release-ok sha256 current d q h) (sc ∙ sym c, sr ∙ r)

  after_restart-IsRolled :
      (w : World) (current release : Text) (p : Project) (o : Outcome Bool)
      → p.current ≡ some current
      → o.1.current ≡ some release
      → o.1.releases ≡ p.releases
      → Verifies sha256 (some current) p
      → Verifies sha256 (some release) p
      → IsRolled p (after_restart sha256 w current release o)
  after_restart-IsRolled w current release p (err e, q) c n r v u =
      roll_forward-IsRolled w current p q c r v
  after_restart-IsRolled w current release p (ok x, q) c n r v u =
      (n, sym c, r, Verifies-SameReleases sha256 (some release) p q r u)

  roll_to-IsRolled :
      (w : World) (current release : Text) (p : Project)
      → p.current ≡ some current
      → Verifies sha256 (some current) p
      → IsRolled p (roll_to sha256 w current release p)
  unfolding roll_to
  roll_to-IsRolled w current release p c v = elim (Result-cases (verify_release sha256 release p)) [
    | inr (e, h) ↦ rw (activate_release-err sha256 release e p h) (refl, refl)
    | inl (d, h) ↦
        let (sc, sr) =
          restart_and_verify-SameDisk w.healthy (record p { current = some release }) in
        rw (activate_release-ok sha256 release d p h) (
          after_restart-IsRolled w current release p
            (restart_and_verify w.healthy (record p { current = some release })) c sc sr v (d, h))
  ]

  after_same-IsRolled :
      (current : Text) (p : Project) (o : Outcome Bool)
      → p.current ≡ some current
      → SameDisk o.1 p
      → Verifies sha256 (some current) p
      → IsRolled p (after_same sha256 current o)
  after_same-IsRolled current p (err e, q) c s v = s
  after_same-IsRolled current p (ok x, q) c (sc, sr) v =
      (sc ∙ c, sym c, sr, Verifies-SameReleases sha256 (some current) p q sr v)

  roll_named-IsRolled :
      (w : World) (idempotent : Bool) (current release : Text) (p : Project)
      → p.current ≡ some current
      → Verifies sha256 (some current) p
      → IsRolled p (roll_named sha256 w idempotent current release p)
  unfolding roll_named roll_same
  roll_named-IsRolled w idempotent current release p c (d, v) =
      elim (Bool-cases (contains (keys p.releases) release)) [
        | inr e ↦ simp (e) (refl, refl)
        | inl e ↦ elim (Bool-cases (release == current)) [
          | inr f ↦ simp (e, f) (roll_to-IsRolled w current release p c (d, v))
          | inl f ↦ elim (Bool-cases idempotent) [
            | inr g ↦ simp (e, f, g) (refl, refl)
            | inl g ↦
                simp (e, f, g, v)
                  (after_same-IsRolled current p (restart_and_verify w.healthy p) c
                    (restart_and_verify-SameDisk w.healthy p) (d, v))
          ]
        ]
      ]

  roll_target-IsRolled :
      (w : World) (idempotent : Bool) (current : Text) (release : Option Text) (p : Project)
      → p.current ≡ some current
      → Verifies sha256 (some current) p
      → IsRolled p (roll_target sha256 w idempotent current release p)
  roll_target-IsRolled w idempotent current none p c v = (refl, refl)
  roll_target-IsRolled w idempotent current (some name) p c v =
      roll_named-IsRolled w idempotent current name p c v

  roll_listed-IsRolled :
      (w : World) (idempotent : Bool) (current : Text) (release : Option Text) (names : List Text)
      (p : Project)
      → p.current ≡ some current
      → Verifies sha256 (some current) p
      → IsRolled p (roll_listed sha256 w idempotent current release names p)
  roll_listed-IsRolled w idempotent current release [] p c v = (refl, refl)
  roll_listed-IsRolled w idempotent current release (x ∷ names) p c v =
      roll_target-IsRolled w idempotent current (target sha256 current release (x ∷ names)) p c v

  roll_from-IsRolled :
      (w : World) (idempotent : Bool) (c release : Option Text) (p : Project)
      → p.current ≡ c
      → Verifies sha256 c p
      → IsRolled p (roll_from sha256 w idempotent c release p)
  roll_from-IsRolled w idempotent none release p e v = (refl, refl)
  roll_from-IsRolled w idempotent (some current) release p e v =
      roll_listed-IsRolled w idempotent current release (keys p.releases) p e v

  -- If the current release verifies, then `rollback` either returns a result, and then the release
  -- that it names is current and verifies and the result names the one before it; or it raises, and
  -- then the symlink points where it did. The releases on the disk are the same in any case.
  pub rollback-IsRolled :
      (w : World) (idempotent : Bool) (release : Option Text) (p : Project)
      → Verifies sha256 p.current p
      → IsRolled p (rollback sha256 w idempotent release p)
  unfolding rollback
  rollback-IsRolled w idempotent release p v =
      roll_from-IsRolled w idempotent p.current release p refl v
