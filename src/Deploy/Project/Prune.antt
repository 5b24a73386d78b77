-- ===== src/Deploy/Project/Prune.antt =====
-- What `_prune_releases` of src/titanbox/deploy.py keeps.
use vpsssssskjwjw.Prelude.{ℕ, ◌+◌, ◌≡◌, true, List, [], ◌∷◌, Text, text_eq, contains, arith}
use vpsssssskjwjw.Prelude.Dict.{Dict, lookup}
use vpsssssskjwjw.Deploy.Manifest.{Tree}
use vpsssssskjwjw.Deploy.Project.{prune_loop}

pub lookup-prune_loop :
    (name : Text) (keep n : ℕ) (protect : List Text) (d : Dict Text Tree)
    → contains protect name ≡ true
    → lookup name (prune_loop keep n protect d) ≡ lookup name d
unfolding prune_loop lookup
lookup-prune_loop name keep n protect [] h = ground arith
lookup-prune_loop name keep n protect ((k, t) ∷ d) h = ground (
  arith,
  h,
  lookup-prune_loop name keep (n + 1) protect d h,
  lookup-prune_loop name keep n protect d h,
)
