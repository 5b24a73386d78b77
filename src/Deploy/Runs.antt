-- ===== src/Deploy/Runs.antt =====
-- Sequences of `deploy_zip` and `rollback` of src/titanbox/deploy.py on one project.
use vpsssssskjwjw.Prelude.{
  ◌≡◌, ◌∙◌, refl, ap, Bool, true, false, ◌&&◌, not, Option, none, some, List, [], ◌∷◌, Text,
  text_eq, arith, if◌then◌else◌, contains, Bool-cases, inl, inr,
}
use vpsssssskjwjw.Prelude.Dict.{Dict, lookup, erase, lookup-erase}
use vpsssssskjwjw.Prelude.Result.{Result, ok, err}
use vpsssssskjwjw.Deploy.Manifest.{Tree, Failure, keys}
use vpsssssskjwjw.Deploy.Project.{
  active, no_backup, active_ok, commit_warning, Backup, set_remote, Project, World, DeployResult,
  Outcome, is_current, restart_and_verify, verify_release,
}
use vpsssssskjwjw.Deploy.Project.Restore.{
  SameDisk, restart_and_verify-SameDisk, set_remote-SameDisk, Verifies,
}
use vpsssssskjwjw.Deploy.Finalize.{resumed, reconcile, after_check, resume_idempotent, deploy}
use vpsssssskjwjw.Deploy.Finalize.Laws.{Verifies-lookup, Verifies-SameReleases}
use vpsssssskjwjw.Deploy.Finalize.Safety.{IsDeployed, deploy-IsDeployed}
use vpsssssskjwjw.Deploy.Rollback.{rollback}
use vpsssssskjwjw.Deploy.Rollback.Laws.{IsRolled, rollback-IsRolled}

-- An operation with what befalls it.
pub data Event : Type 0 where
  deploying : World → Bool → Text → Option Tree → Event
  rolling_back : World → Bool → Option Text → Event

module _ (sha256 : Text → Text) where
  unfoldable pub step : Event → Project → Project
  step (deploying w operation release staged) p =
      if is_current release p.current && not operation
      then p
      else (deploy sha256 w operation release staged p).1
  step (rolling_back w idempotent release) p = (rollback sha256 w idempotent release p).1

  unfoldable pub run : List Event → Project → Project
  run [] p = p
  run (e ∷ es) p = run es (step e p)

  resumed-SameDisk :
      (release : Text) (b : Backup) (o : Outcome Bool) (p : Project)
      → SameDisk o.1 p
      → SameDisk (resumed sha256 release b o).1 p
  resumed-SameDisk release b (err e, q) p h = h
  resumed-SameDisk release b (ok x, q) p h = h

  restarted-SameDisk :
      (w : World) (release : Text) (b : Backup) (p q : Project)
      → SameDisk q p
      → SameDisk (resumed sha256 release b (restart_and_verify w.healthy q)).1 p
  restarted-SameDisk w release b p q (c, r) =
      let (sc, sr) = restart_and_verify-SameDisk w.healthy q in
      resumed-SameDisk release b (restart_and_verify w.healthy q) p (sc ∙ c, sr ∙ r)

  reconcile-SameDisk :
      (w : World) (release : Text) (p : Project) → SameDisk (reconcile sha256 w release p).1 p
  reconcile-SameDisk w release p =
      let left = set_remote-SameDisk release w.promote_left p in
      elim (Bool-cases w.store_enabled) [
        | inr e ↦ simp (e) (restarted-SameDisk w release no_backup p p (refl, refl))
        | inl e ↦ elim (Bool-cases w.promote_ok) [
          | inl f ↦
              simp (e, f)
                (restarted-SameDisk w release active_ok p (set_remote release (some active) p)
                  (refl, refl))
          | inr f ↦ elim (Bool-cases w.durability_required) [
            | inl g ↦ simp (e, f, g) left
            | inr g ↦
                simp (e, f, g)
                  (restarted-SameDisk w release commit_warning p
                    (set_remote release w.promote_left p) left)
          ]
        ]
      ]

  after_check-SameDisk :
      (w : World) (release : Text) (p : Project) (r : Result Failure Text)
      → SameDisk (after_check sha256 w release p r).1 p
  after_check-SameDisk w release p (ok d) = reconcile-SameDisk w release p
  after_check-SameDisk w release p (err f) = (refl, refl)

  deploy-resume :
      (w : World) (release : Text) (staged : Option Tree) (p : Project)
      → is_current release p.current ≡ true
      → contains (keys p.releases) release ≡ true
      → SameDisk (deploy sha256 w true release staged p).1 p
  unfolding deploy resume_idempotent
  deploy-resume w release staged p e k =
      simp (e, k) (after_check-SameDisk w release p (verify_release sha256 release p))

  lookup-none :
      (name : Text) (d : Dict Text Tree) → contains (keys d) name ≡ false → lookup name d ≡ none
  unfolding lookup
  lookup-none name [] h = ground arith
  lookup-none name ((k, t) ∷ d) h = ground (arith, h, lookup-none name d)

  -- The current release is on the disk, so a deployment of it under an operation id resumes.
  contains-current :
      (c : Option Text) (release : Text) (p : Project)
      → is_current release c ≡ true
      → Verifies sha256 c p
      → contains (keys p.releases) release ≡ true
  unfolding verify_release
  contains-current none release p h v = cc h
  contains-current (some name) release p h (d, v) =
      let n = lookup-none name p.releases in ground (arith, h, v, n)

  Verifies-erase :
      (c : Option Text) (release : Text) (p q : Project)
      → is_current release c ≡ false
      → q.releases ≡ erase release p.releases
      → Verifies sha256 c p
      → Verifies sha256 c q
  Verifies-erase none release p q n s v = tt
  Verifies-erase (some name) release p q n s v =
      Verifies-lookup sha256 name p q
        (ap (lookup name) s ∙ ground (arith, n, lookup-erase name release p.releases)) v

  deployed-Verifies :
      (release : Text) (staged : Option Tree) (p : Project) (o : Outcome DeployResult)
      → is_current release p.current ≡ false
      → Verifies sha256 p.current p
      → IsDeployed sha256 release staged p o
      → Verifies sha256 o.1.current o.1
  deployed-Verifies release staged p (ok r, q) n v (a, c, l, u, k) = simp (c) u
  deployed-Verifies release staged p (err e, q) n v (c, s) =
      simp (c) (Verifies-erase p.current release p q n s v)

  rolled-Verifies :
      (p : Project) (o : Outcome DeployResult)
      → Verifies sha256 p.current p
      → IsRolled sha256 p o
      → Verifies sha256 o.1.current o.1
  rolled-Verifies p (ok r, q) v (c, a, s, u) = simp (c) u
  rolled-Verifies p (err e, q) v (c, s) = simp (c) (Verifies-SameReleases sha256 p.current p q s v)

  step-Verifies :
      (e : Event) (p : Project)
      → Verifies sha256 p.current p
      → Verifies sha256 (step e p).current (step e p)
  unfolding step
  step-Verifies (rolling_back w i r) p v =
      rolled-Verifies p (rollback sha256 w i r p) v (rollback-IsRolled sha256 w i r p v)
  step-Verifies (deploying w operation release staged) p v =
      elim (Bool-cases (is_current release p.current)) [
        | inr e ↦ simp (e) (
            deployed-Verifies release staged p (deploy sha256 w operation release staged p) e v
              (deploy-IsDeployed sha256 w operation release staged p e v))
        | inl e ↦ elim (Bool-cases operation) [
          | inr f ↦ simp (e, f) v
          | inl f ↦
              let (c, r) =
                deploy-resume w release staged p e (contains-current p.current release p e v) in
              simp (e, f, c)
                (Verifies-SameReleases sha256 p.current p (deploy sha256 w true release staged p).1
                  r v)
        ]
      ]

  -- After any sequence of deployments and rollbacks, however each of them fares, the current release
  -- verifies if it did at first; with no current release at first nothing is asked. A deployment
  -- without an operation id under the current release's name, which the names of releases exclude, is
  -- left out of the sequence.
  pub run-Verifies :
      (es : List Event) (p : Project)
      → Verifies sha256 p.current p
      → Verifies sha256 (run es p).current (run es p)
  unfolding run
  run-Verifies [] p v = v
  run-Verifies (e ∷ es) p v = run-Verifies es (step e p) (step-Verifies e p v)
