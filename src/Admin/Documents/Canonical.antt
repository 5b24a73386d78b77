-- ===== src/Admin/Documents/Canonical.antt =====
-- The canonical form that src/titanbox/plugins/deploy_admin.py stores of an upload means what the
-- upload meant, whatever the plugin has forgotten by the time the job runs.
use vpsssssskjwjw.Prelude.{
  ℕ, ◌≡◌, refl, sym, ap, Bool, true, false, not, Option, none, some, List, [], ◌∷◌, Text, text_eq,
  nat_eq, codes, inl, inr, ◌⊎◌,
}
use vpsssssskjwjw.Prelude.Result.{Result, ok, err, Result-cases}
use vpsssssskjwjw.Deploy.Paths.{
  strip, starts_with, validate_project_name, validate_relative_path, safe_filename, join_slash,
  PathError,
}
use vpsssssskjwjw.Admin.Action.{return, from_result, resume, ◌>>=◌, ◌>>◌}
use vpsssssskjwjw.Admin.Desk.{
  AdminError, Policy, AdminLibrary, Document, Upload, Desk, View, Work, no_document, complain,
  require, upload_too_large, Complaint,
}
use vpsssssskjwjw.Admin.Documents.{
  Intent, deploying, putting, Caption, no_words, other_words, deploy_usage, put_usage, deploy_words,
  put_words, named, pick_project, caption_of, words_of, resolve_caption, resolve_document,
  resolve_upload, canonical_caption, canonical_plan, canonical_plan_of, stored, Plan, file_id_of,
  is_over,
}
use vpsssssskjwjw.Admin.Documents.Spelling.{
  IsShlex, project_of, target_of, resolve-spell, canonical_caption-FitsName, resume-some,
}

-- The same work, where the canonical path of a file may be spelled in another way.
abbrev pub Agrees : AdminLibrary → Intent → Intent → Type 0
Agrees L (deploying p) (deploying q) = p ≡ q
Agrees L (putting p t) (putting q u) =
    (p ≡ q)
    × ((t ≡ u)
        ⊎ ((path : List Text) × (validate_relative_path L.unicode u ≡ ok path)
            × (t ≡ join_slash path)))
Agrees L _ _ = ⊥

Agrees-refl : (L : AdminLibrary) (i : Intent) → Agrees L i i
Agrees-refl L (deploying p) = refl
Agrees-refl L (putting p t) = (refl, inl refl)

canonical-put :
    (L : AdminLibrary) (target : Text) (o : Result AdminError Text × Desk) (i : Intent)
    → (resume
        (λ project.
          (from_result (named (validate_relative_path L.unicode target)) >>= λ path.
          return (putting project (join_slash path))))
        o).0
      ≡ ok i
    → (j : Intent) × ((resume (λ project. return (putting project target)) o).0 ≡ ok j)
      × Agrees L i j
unfolding ◌>>=◌
canonical-put L target (err e, d) i h = absurd (cc h)
canonical-put L target (ok project, d) i h =
    elim (Result-cases (validate_relative_path L.unicode target)) [
      | inr (e, f) ↦ absurd (cc (simp (f) at h))
      | inl (path, f) ↦
          let e : putting project (join_slash path) ≡ i = cc (simp (f) at h) in
          (putting project target, refl, rw (sym e) (refl, inr (path, f, refl)))
    ]

canonical-resolve_caption :
    (L : AdminLibrary) (w : View) (user : ℕ) (filename : Text) (slash : Bool) (c : Caption)
    (d : Desk) (i : Intent)
    → (canonical_caption L w user filename slash c d).0 ≡ ok i
    → (j : Intent) × ((resolve_caption L w user filename c d).0 ≡ ok j) × Agrees L i j
unfolding canonical_caption resolve_caption ◌>>=◌
canonical-resolve_caption L w user filename slash (deploy_words project) d i h =
    (i, h, Agrees-refl L i)
canonical-resolve_caption L w user filename slash (put_words project target) d i h =
    canonical-put L target (pick_project L w user (some project) d) i h
canonical-resolve_caption L w user filename slash deploy_usage d i h = absurd (cc h)
canonical-resolve_caption L w user filename slash put_usage d i h = absurd (cc h)
canonical-resolve_caption L w user filename slash other_words d i h = absurd (cc h)
canonical-resolve_caption L w user filename true no_words d i h = absurd (cc h)
canonical-resolve_caption L w user filename false no_words d i h = (i, h, Agrees-refl L i)

require_ok :
    {A : Type 0} (b : Bool) (c : Complaint) (m : Work A) (d : Desk) (a : A)
    → ((require b c >> m) d).0 ≡ ok a
    → (m d).0 ≡ ok a
unfolding ◌>>=◌
require_ok true c m d a h = h
require_ok false c m d a h = absurd (cc h)

named_ok :
    {A B : Type 0} (r : Result PathError A) (f : A → Work B) (d : Desk) (b : B)
    → ((from_result (named r) >>= f) d).0 ≡ ok b
    → (a : A) × (r ≡ ok a) × ((f a d).0 ≡ ok b)
unfolding ◌>>=◌
named_ok (ok a) f d b h = (a, refl, h)
named_ok (err e) f d b h = absurd (cc h)

file_id_ok :
    {B : Type 0} (o : Option Text) (f : Text → Work B) (d : Desk) (b : B)
    → ((file_id_of o >>= f) d).0 ≡ ok b
    → (a : Text) × ((f a d).0 ≡ ok b)
unfolding ◌>>=◌
file_id_ok none f d b h = absurd (cc h)
file_id_ok (some []) f d b h = absurd (cc h)
file_id_ok (some (c ∷ s)) f d b h = (c ∷ s, h)

plan_ok :
    (file_id filename : Text) (size : Option ℕ) (o : Result AdminError Intent × Desk) (plan : Plan)
    → (resume
        (λ intent.
          return {X = AdminError}
            (record { file_id = file_id; filename = filename; file_size = size; intent = intent }))
        o).0
      ≡ ok plan
    → (filename ≡ plan.filename) × (o.0 ≡ ok plan.intent)
plan_ok file_id filename size (err e, d) plan h = absurd (cc h)
plan_ok file_id filename size (ok intent, d) plan h =
    let e : record { file_id = file_id; filename = filename; file_size = size; intent = intent }
        ≡ plan =
      cc h in
    (ap (λ q. q.filename) e, ap (λ q. ok q.intent) e)

-- What an accepted document has in it.
canonical_plan_of_ok :
    (L : AdminLibrary) (p : Policy) (w : View) (user : ℕ) (caption : Text) (document : Document)
    (d : Desk) (plan : Plan)
    → (canonical_plan_of L p w user caption document d).0 ≡ ok plan
    → (safe_filename L.unicode document.file_name ≡ ok plan.filename)
      × ((canonical_caption L w user plan.filename
            (starts_with (codes "/") caption)
            (caption_of (words_of L caption))
            d).0
          ≡ ok plan.intent)
unfolding canonical_plan_of ◌>>=◌
canonical_plan_of_ok L p w user caption document d plan h =
    let (file_id, h1) = file_id_ok document.file_id _ d plan h in
    let (filename, f, h2) = named_ok (safe_filename L.unicode document.file_name) _ d plan h1 in
    let h3 =
      require_ok (not (is_over p.max_upload_bytes document.file_size)) upload_too_large _ d plan
        h2 in
    let (e, i) =
      plan_ok file_id filename document.file_size
        (canonical_caption L w user filename (starts_with (codes "/") caption)
          (caption_of (words_of L caption)) d)
        plan h3 in
    rw (sym e) (f, i)

canonical_plan-some :
    (L : AdminLibrary) (p : Policy) (w : View) (user : ℕ) (up : Upload) (d : Desk) (plan : Plan)
    → (canonical_plan L p w user up d).0 ≡ ok plan
    → (document : Document) × (up.document ≡ some document)
      × ((canonical_plan_of L p w user (strip L.unicode.is_space up.caption) document d).0
          ≡ ok plan)
unfolding canonical_plan
canonical_plan-some L p w user up d plan h = take_document up.document refl h
  where
    take_document :
        (o : Option Document)
        → up.document ≡ o
        → (elim o as (λ _. Work Plan) [
          | none ↦ complain no_document
          | some document ↦
              canonical_plan_of L p w user (strip L.unicode.is_space up.caption) document
        ]
            d).0
          ≡ ok plan
        → (document : Document) × (up.document ≡ some document)
          × ((canonical_plan_of L p w user (strip L.unicode.is_space up.caption) document d).0
              ≡ ok plan)
    take_document none e k = absurd (cc k)
    take_document (some document) e k = (document, e, k)

resume_agreeing :
    (L : AdminLibrary) (o : Result AdminError Intent × Desk) (i : Intent)
    → ((j : Intent) × (o.0 ≡ ok j) × Agrees L i j)
    → (j : Intent) × ((resume (λ intent. return {X = AdminError} (some intent)) o).0 ≡ ok (some j))
      × Agrees L i j
resume_agreeing L o i (j, e, a) = (j, resume-some o j e, a)

-- What the plugin stores of an upload means what the upload means. If the canonical form of an
-- upload is made, the upload itself would be taken on the spot for the same work, up to the spelling
-- of the canonical path of a file.
pub canonical-Agrees :
    (L : AdminLibrary) (p : Policy) (w : View) (user : ℕ) (up : Upload) (d : Desk) (plan : Plan)
    → (canonical_plan L p w user up d).0 ≡ ok plan
    → (j : Intent) × ((resolve_upload L w user up d).0 ≡ ok (some j)) × Agrees L plan.intent j
unfolding resolve_upload resolve_document ◌>>=◌
canonical-Agrees L p w user up d plan h =
    let caption : Text = strip L.unicode.is_space up.caption in
    let (document, u, k) = canonical_plan-some L p w user up d plan h in
    let (f, i) = canonical_plan_of_ok L p w user caption document d plan k in
    rw (u, f)
      (resume_agreeing L
        (resolve_caption L w user plan.filename (caption_of (words_of L caption)) d) plan.intent
        (canonical-resolve_caption L w user plan.filename (starts_with (codes "/") caption)
          (caption_of (words_of L caption)) d plan.intent i))

-- The message that the plugin stores, taken up at any later time and in any later state, is a
-- deployment or a file for the very project and path that the canonical form settled, where `shlex`
-- reads back what it wrote of the two, the project's name is valid, and the file's name is safe.
pub stored_settled :
    (L : AdminLibrary) (p : Policy) (w : View) (user : ℕ) (up : Upload) (d : Desk) (plan : Plan)
    → (canonical_plan L p w user up d).0 ≡ ok plan
    → IsShlex L (project_of plan.intent) (target_of plan.intent)
    → safe_filename L.unicode plan.filename ≡ ok plan.filename
    → validate_project_name L.unicode (project_of plan.intent) ≡ ok (project_of plan.intent)
    → (later : View) (someone : ℕ) (after : Desk)
    → (resolve_upload L later someone (stored L plan) after).0 ≡ ok (some plan.intent)
stored_settled L p w user up d plan h s f v later someone after =
    let caption : Text = strip L.unicode.is_space up.caption in
    let (document, u, k) = canonical_plan-some L p w user up d plan h in
    let (_, i) = canonical_plan_of_ok L p w user caption document d plan k in
    resolve-spell L later someone plan after s f v (
      canonical_caption-FitsName L w user plan.filename (starts_with (codes "/") caption)
        (caption_of (words_of L caption)) d plan.intent i)
