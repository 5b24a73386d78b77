-- ===== src/Admin/Documents/Spelling.antt =====
-- The caption that src/titanbox/plugins/deploy_admin.py writes into a stored upload, read back.
use vpsssssskjwjw.Prelude.{
  ℕ, ◌≡◌, refl, sym, Bool, true, false, not, none, some, List, [], ◌∷◌, Text, text_dec, ℕ_discrete,
  text_eq, nat_eq, codes,
}
use vpsssssskjwjw.Prelude.Result.{Result, ok, err}
use vpsssssskjwjw.Deploy.Paths.{
  strip, drop_spaces, starts_with, validate_project_name, validate_relative_path, safe_filename,
  join_slash, PathError,
}
use vpsssssskjwjw.Admin.Action.{return, from_result, resume, ◌>>=◌}
use vpsssssskjwjw.Admin.Desk.{
  AdminError, AdminLibrary, Desk, View, require, not_a_zip, zip_needs_caption,
}
use vpsssssskjwjw.Admin.Documents.{
  Intent, deploying, putting, Caption, no_words, other_words, deploy_usage, put_usage, deploy_words,
  put_words, named, pick_project, caption_of, words_of, command_parts, before_at, is_zip,
  smart_target, only_match, resolve_caption, resolve_document, resolve_upload, canonical_caption,
  stored, Plan, spell,
}

-- What the documentation of `shlex` says of a command and quoted words, at the words at hand: a line
-- of them splits into them again, and has no space at its ends. `lower` leaves the two commands.
pub record IsShlex (L : AdminLibrary) (project target : Text) : Type 0 where
  pub deploy_line : L.split (spell L (deploying project)) ≡ some (codes "/deploy" ∷ project ∷ [])
  pub put_line :
      L.split (spell L (putting project target)) ≡ some (codes "/put" ∷ project ∷ target ∷ [])
  pub deploy_ends :
      strip L.unicode.is_space (spell L (deploying project)) ≡ spell L (deploying project)
  pub put_ends :
      strip L.unicode.is_space (spell L (putting project target)) ≡ spell L (putting project target)
  pub lower_deploy : L.lower (codes "/deploy") ≡ codes "/deploy"
  pub lower_put : L.lower (codes "/put") ≡ codes "/put"

abbrev pub project_of : Intent → Text
project_of (deploying project) = project
project_of (putting project target) = project

abbrev pub target_of : Intent → Text
target_of (deploying project) = []
target_of (putting project target) = target

-- The caption that names the work.
abbrev caption_for : Intent → Caption
caption_for (deploying project) = deploy_words project
caption_for (putting project target) = put_words project target

starts-spell : (L : AdminLibrary) (i : Intent) → starts_with (codes "/") (spell L i) ≡ true
unfolding spell ℕ_discrete
starts-spell L (deploying project) = refl
starts-spell L (putting project target) = refl

before_at-commands :
    (before_at (codes "/deploy") ≡ codes "/deploy") × (before_at (codes "/put") ≡ codes "/put")
unfolding before_at ℕ_discrete
before_at-commands = (refl, refl)

words_of-spell :
    (L : AdminLibrary) (i : Intent) (c : Text) (words : List Text)
    → strip L.unicode.is_space (spell L i) ≡ spell L i
    → L.split (spell L i) ≡ some (c ∷ words)
    → before_at c ≡ c
    → L.lower c ≡ c
    → words_of L (strip L.unicode.is_space (spell L i)) ≡ c ∷ words
unfolding words_of command_parts
words_of-spell L i c words e s b l = simp (e, starts-spell L i, s, b, l) refl

caption_of-spell :
    (L : AdminLibrary) (i : Intent)
    → IsShlex L (project_of i) (target_of i)
    → caption_of (words_of L (strip L.unicode.is_space (spell L i))) ≡ caption_for i
unfolding caption_of text_dec ℕ_discrete
caption_of-spell L (deploying project) s =
    rw
      (words_of-spell L (deploying project) (codes "/deploy") (project ∷ []) s.deploy_ends
        s.deploy_line before_at-commands.0 s.lower_deploy)
      refl
caption_of-spell L (putting project target) s =
    rw
      (words_of-spell L (putting project target) (codes "/put") (project ∷ target ∷ []) s.put_ends
        s.put_line before_at-commands.1 s.lower_put)
      refl

-- A deployment needs a ZIP.
abbrev pub FitsName : AdminLibrary → Text → Intent → Type 0
FitsName L filename (deploying project) = is_zip L filename ≡ true
FitsName L filename (putting project target) = Unit

deploying-FitsName :
    (L : AdminLibrary) (filename : Text) (b : Bool) (o : Result AdminError Text × Desk) (i : Intent)
    → is_zip L filename ≡ b
    → (resume (λ project. (require b not_a_zip >>= λ u. return (deploying project))) o).0 ≡ ok i
    → FitsName L filename i
unfolding ◌>>=◌
deploying-FitsName L filename b (err e, d) i z h = absurd (cc h)
deploying-FitsName L filename false (ok project, d) i z h = absurd (cc h)
deploying-FitsName L filename true (ok project, d) i z h =
    let e : deploying project ≡ i = cc h in rw (sym e) z

only_match-FitsName :
    (L : AdminLibrary) (filename project : Text) (found : List Text) (d : Desk) (i : Intent)
    → (only_match project found d).0 ≡ ok i
    → FitsName L filename i
only_match-FitsName L filename project [] d i h = absurd (cc h)
only_match-FitsName L filename project (target ∷ []) d i h =
    let e : putting project target ≡ i = cc h in rw (sym e) tt
only_match-FitsName L filename project (target ∷ t ∷ ts) d i h = absurd (cc h)

smart-FitsName :
    (L : AdminLibrary) (w : View) (filename : Text) (b : Bool) (o : Result AdminError Text × Desk)
    (i : Intent)
    → (resume
        (λ project.
          (require b zip_needs_caption >>= λ u. only_match project (w.matches project filename)))
        o).0
      ≡ ok i
    → FitsName L filename i
unfolding ◌>>=◌
smart-FitsName L w filename b (err e, d) i h = absurd (cc h)
smart-FitsName L w filename false (ok project, d) i h = absurd (cc h)
smart-FitsName L w filename true (ok project, d) i h =
    only_match-FitsName L filename project (w.matches project filename) d i h

path-FitsName :
    (L : AdminLibrary) (filename : Text) (r : Result PathError (List Text))
    (o : Result AdminError Text × Desk) (i : Intent)
    → (resume
        (λ project. (from_result (named r) >>= λ path. return (putting project (join_slash path))))
        o).0
      ≡ ok i
    → FitsName L filename i
unfolding ◌>>=◌
path-FitsName L filename r (err e, d) i h = absurd (cc h)
path-FitsName L filename (err e) (ok project, d) i h = absurd (cc h)
path-FitsName L filename (ok path) (ok project, d) i h =
    let e : putting project (join_slash path) ≡ i = cc h in rw (sym e) tt

pub canonical_caption-FitsName :
    (L : AdminLibrary) (w : View) (user : ℕ) (filename : Text) (slash : Bool) (c : Caption)
    (d : Desk) (i : Intent)
    → (canonical_caption L w user filename slash c d).0 ≡ ok i
    → FitsName L filename i
unfolding canonical_caption smart_target ◌>>=◌
canonical_caption-FitsName L w user filename slash (deploy_words project) d i h =
    deploying-FitsName L filename (is_zip L filename) (pick_project L w user (some project) d) i
      refl h
canonical_caption-FitsName L w user filename slash (put_words project target) d i h =
    path-FitsName L filename (validate_relative_path L.unicode target)
      (pick_project L w user (some project) d) i h
canonical_caption-FitsName L w user filename slash deploy_usage d i h = absurd (cc h)
canonical_caption-FitsName L w user filename slash put_usage d i h = absurd (cc h)
canonical_caption-FitsName L w user filename slash other_words d i h = absurd (cc h)
canonical_caption-FitsName L w user filename true no_words d i h = absurd (cc h)
canonical_caption-FitsName L w user filename false no_words d i h =
    smart-FitsName L w filename (not (is_zip L filename)) (pick_project L w user none d) i h

-- An explicit project that is a project's name is the project that is picked.
pick_project-valid :
    (L : AdminLibrary) (w : View) (user : ℕ) (project : Text) (d : Desk)
    → validate_project_name L.unicode project ≡ ok project
    → (pick_project L w user (some project) d).0 ≡ ok project
unfolding pick_project ◌>>=◌ validate_project_name strip drop_spaces
pick_project-valid L w user [] d v = absurd (cc v)
pick_project-valid L w user (c ∷ s) d v = rw v refl

resume_deploying :
    (L : AdminLibrary) (filename project : Text) (o : Result AdminError Text × Desk)
    → o.0 ≡ ok project
    → is_zip L filename ≡ true
    → (resume
        (λ project. (require (is_zip L filename) not_a_zip >>= λ u. return (deploying project)))
        o).0
      ≡ ok (deploying project)
unfolding ◌>>=◌
resume_deploying L filename project (r, d) e z = rw (e, z) refl

resume_putting :
    (target project : Text) (o : Result AdminError Text × Desk)
    → o.0 ≡ ok project
    → (resume (λ project. return {X = AdminError} {S = Desk} (putting project target)) o).0
      ≡ ok (putting project target)
resume_putting target project (r, d) e = rw e refl

resolve_caption_for :
    (L : AdminLibrary) (w : View) (user : ℕ) (filename : Text) (i : Intent) (d : Desk)
    → validate_project_name L.unicode (project_of i) ≡ ok (project_of i)
    → FitsName L filename i
    → (resolve_caption L w user filename (caption_for i) d).0 ≡ ok i
unfolding resolve_caption ◌>>=◌
resolve_caption_for L w user filename (deploying project) d v z =
    resume_deploying L filename project (pick_project L w user (some project) d)
      (pick_project-valid L w user project d v) z
resolve_caption_for L w user filename (putting project target) d v z =
    resume_putting target project (pick_project L w user (some project) d)
      (pick_project-valid L w user project d v)

pub resume-some :
    (o : Result AdminError Intent × Desk) (i : Intent)
    → o.0 ≡ ok i
    → (resume (λ intent. return {X = AdminError} (some intent)) o).0 ≡ ok (some i)
resume-some (r, d) i e = rw e refl

pub resolve-spell :
    (L : AdminLibrary) (w : View) (user : ℕ) (plan : Plan) (d : Desk)
    → IsShlex L (project_of plan.intent) (target_of plan.intent)
    → safe_filename L.unicode plan.filename ≡ ok plan.filename
    → validate_project_name L.unicode (project_of plan.intent) ≡ ok (project_of plan.intent)
    → FitsName L plan.filename plan.intent
    → (resolve_upload L w user (stored L plan) d).0 ≡ ok (some plan.intent)
unfolding resolve_upload resolve_document stored ◌>>=◌
resolve-spell L w user plan d s f v z =
    simp (f, caption_of-spell L plan.intent s)
      (resume-some (resolve_caption L w user plan.filename (caption_for plan.intent) d) plan.intent
        (resolve_caption_for L w user plan.filename plan.intent d v z))
