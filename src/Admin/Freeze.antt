-- ===== src/Admin/Freeze.antt =====
-- What `_resolve_rollback_target` of src/titanbox/plugins/deploy_admin.py freezes is what `rollback`
-- of src/titanbox/deploy.py does.
use vpsssssskjwjw.Prelude.{◌≡◌, Bool, false, Option, some, Text, text_eq, nat_eq, inl, inr, arith}
use vpsssssskjwjw.Prelude.Result.{Result, ok, err, Result-cases}
use vpsssssskjwjw.Admin.Desk
use vpsssssskjwjw.Deploy.Manifest.{keys}
use vpsssssskjwjw.Deploy.Project.{
  Project, World, DeployError, no_releases, not_found, already_active, no_previous,
}
use vpsssssskjwjw.Deploy.Rollback.{rollback, roll_named, roll_same}
use vpsssssskjwjw.Admin.Desk.{AdminError, deploy_error}
use vpsssssskjwjw.Admin.Commands.{resolve_rollback_target}

-- The reason of `rollback` that is the reason of the plugin.
abbrev pub reason_of : AdminError → DeployError
reason_of (deploy_error Desk.no_such_release) = not_found
reason_of (deploy_error Desk.already_active) = already_active
reason_of (deploy_error Desk.no_previous) = no_previous
reason_of _ = no_releases

module _ (sha256 : Text → Text) (w : World) where
  same_rollback :
      (release : Option Text) (p : Project) (name : Text) (idempotent : Bool)
      → resolve_rollback_target (keys p.releases) p.current release ≡ ok name
      → rollback sha256 w idempotent (some name) p ≡ rollback sha256 w idempotent release p
  unfolding resolve_rollback_target rollback
  same_rollback release p name idempotent h = ground (arith, h)

  refused_rollback :
      (release : Option Text) (p : Project) (e : AdminError)
      → resolve_rollback_target (keys p.releases) p.current release ≡ err e
      → rollback sha256 w false release p ≡ (err (reason_of e), p)
  unfolding resolve_rollback_target rollback roll_named roll_same
  refused_rollback release p e h = ground (arith, h)

  -- What a request comes to: the very rollback of the frozen name, or a refusal for the same
  -- reason with the project as it was.
  abbrev pub Settles : Option Text → Project → Result AdminError Text → Type 0
  Settles release p (ok name) =
      (idempotent : Bool)
      → rollback sha256 w idempotent (some name) p ≡ rollback sha256 w idempotent release p
  Settles release p (err e) = rollback sha256 w false release p ≡ (err (reason_of e), p)

  -- What the plugin freezes before it queues a rollback is what the rollback does. If it settles on
  -- a release, the rollback of that release is the rollback that was asked for, whether the
  -- release was named or the newest other one was meant; if it refuses, the rollback would have
  -- failed for the same reason without a change of the project.
  pub resolve_rollback_target-Settles :
      (release : Option Text) (p : Project)
      → Settles release p (resolve_rollback_target (keys p.releases) p.current release)
  resolve_rollback_target-Settles release p =
      elim (Result-cases (resolve_rollback_target (keys p.releases) p.current release)) [
        | inl (name, e) ↦ rw e (λ idempotent. same_rollback release p name idempotent e)
        | inr (f, e) ↦ rw e (refused_rollback release p f e)
      ]
