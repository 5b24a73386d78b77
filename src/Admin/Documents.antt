-- ===== src/Admin/Documents.antt =====
-- Uploads in src/titanbox/plugins/deploy_admin.py: `_pick_project`, `_command_parts`, what
-- `_handle_document` does with a caption before it downloads, and `_canonical_persistent_document`.
pub mod Spelling
pub mod Canonical
use vpsssssskjwjw.Prelude.{
  ℕ, Bool, true, false, ◌&&◌, ◌||◌, not, Option, none, some, List, [], ◌∷◌, ◌++◌, reverse, Text,
  text_eq, nat_eq, ◌==◌, codes, ltb, length, if◌then◌else◌,
}
use vpsssssskjwjw.Prelude.Dict.{lookup, insert}
use vpsssssskjwjw.Prelude.Result.{Result, ok, err}
use vpsssssskjwjw.Deploy.Paths.{
  strip, starts_with, validate_project_name, validate_relative_path, safe_filename, join_slash,
  PathError,
}
use vpsssssskjwjw.Admin.Action.{Action, return, throw, from_result, modify, ◌>>=◌, ◌>>◌}
use vpsssssskjwjw.Admin.Desk.{
  Policy, AdminLibrary, Complaint, invalid_name, choose_project, no_document, bad_file_id,
  upload_too_large, bad_caption, not_a_zip, zip_needs_caption, ambiguous_target, unknown_target,
  usage, AdminError, deploy_error, Document, Upload, Desk, View, Work, complain, require,
}

-- `text.split("@", 1)[0]`
unfoldable pub before_at : Text → Text
before_at [] = []
before_at (c ∷ s) = let rest = before_at s in if c == 64 then [] else c ∷ rest

abbrev pub lower_first : AdminLibrary → Option (List Text) → List Text
lower_first L none = []
lower_first L (some []) = []
lower_first L (some (w ∷ ws)) = L.lower (before_at w) ∷ ws

unfoldable pub command_parts : AdminLibrary → Text → List Text
command_parts L text = lower_first L (L.split (strip L.unicode.is_space text))

-- A name of the manager that it refuses with a `DeployError`.
abbrev pub named {ℓ} : {A : Type ℓ} → Result PathError A → Result AdminError A
named (ok a) = ok a
named (err e) = err (deploy_error invalid_name)

abbrev pub choose : ℕ → Text → Work Text
choose user project =
    modify (λ d. record d { active_project = insert user project d.active_project })
    >> return project

abbrev pub pick_listed : ℕ → List Text → Work Text
pick_listed user (project ∷ []) = choose user project
pick_listed user _ = complain choose_project

abbrev pub pick_active : View → ℕ → Option Text → Work Text
pick_active w user (some (c ∷ s)) = return (c ∷ s)
pick_active w user _ = pick_listed user w.projects

unfoldable pub pick_project : AdminLibrary → View → ℕ → Option Text → Work Text
pick_project L w user (some (c ∷ s)) d =
    (from_result (named (validate_project_name L.unicode (c ∷ s))) >>= choose user) d
pick_project L w user _ d = pick_active w user (lookup user d.active_project) d

-- What is to be done with an upload.
pub data Intent : Type 0 where
  deploying : Text → Intent
  putting : Text → Text → Intent

-- The shapes of a caption's words.
pub data Caption : Type 0 where
  no_words other_words deploy_usage put_usage : Caption
  deploy_words : Text → Caption
  put_words : Text → Text → Caption

abbrev pub deploy_of : List Text → Caption
deploy_of (project ∷ []) = deploy_words project
deploy_of _ = deploy_usage

abbrev pub put_of : List Text → Caption
put_of (project ∷ target ∷ []) = put_words project target
put_of _ = put_usage

unfoldable pub caption_of : List Text → Caption
caption_of [] = no_words
caption_of (w ∷ ws) =
    if w == codes "/deploy"
    then deploy_of ws
    else if w == codes "/put"
    then put_of ws
    else other_words

abbrev ends_with : Text → Text → Bool
ends_with suffix s = starts_with (reverse suffix) (reverse s)

unfoldable pub is_zip : AdminLibrary → Text → Bool
is_zip L filename = ends_with (codes ".zip") (L.lower filename)

-- The caption's words: a text that is no command has none.
unfoldable pub words_of : AdminLibrary → Text → List Text
words_of L caption = if starts_with (codes "/") caption then command_parts L caption else []

abbrev pub only_match : Text → List Text → Work Intent
only_match project [] = complain unknown_target
only_match project (target ∷ []) = return (putting project target)
only_match project (target ∷ t ∷ ts) = complain ambiguous_target

-- A file without a caption goes where the project has a file of that name.
unfoldable pub smart_target : AdminLibrary → View → ℕ → Text → Work Intent
smart_target L w user filename = do
  project ← pick_project L w user none
  require (not (is_zip L filename)) zip_needs_caption
  only_match project (w.matches project filename)

-- The branches of `_handle_document`.
unfoldable pub resolve_caption : AdminLibrary → View → ℕ → Text → Caption → Work Intent
resolve_caption L w user filename (deploy_words project) = do
  project ← pick_project L w user (some project)
  require (is_zip L filename) not_a_zip
  return (deploying project)
resolve_caption L w user filename (put_words project target) = do
  project ← pick_project L w user (some project)
  return (putting project target)
resolve_caption L w user filename deploy_usage = complain usage
resolve_caption L w user filename put_usage = complain usage
resolve_caption L w user filename no_words = smart_target L w user filename
resolve_caption L w user filename other_words = smart_target L w user filename

-- `_handle_document` up to the download; `none` is a message without a document.
unfoldable pub resolve_document : AdminLibrary → View → ℕ → Text → Document → Work (Option Intent)
resolve_document L w user caption document = do
  filename ← from_result (named (safe_filename L.unicode document.file_name))
  intent ← resolve_caption L w user filename (caption_of (words_of L caption))
  return (some intent)

unfoldable pub resolve_upload : AdminLibrary → View → ℕ → Upload → Work (Option Intent)
resolve_upload L w user up = elim up.document [
  | none ↦ return none
  | some document ↦ resolve_document L w user (strip L.unicode.is_space up.caption) document
]

-- The branches of `_canonical_persistent_document`.
unfoldable pub canonical_caption : AdminLibrary → View → ℕ → Text → Bool → Caption → Work Intent
canonical_caption L w user filename slash (deploy_words project) = do
  project ← pick_project L w user (some project)
  require (is_zip L filename) not_a_zip
  return (deploying project)
canonical_caption L w user filename slash (put_words project target) = do
  project ← pick_project L w user (some project)
  path ← from_result (named (validate_relative_path L.unicode target))
  return (putting project (join_slash path))
canonical_caption L w user filename slash deploy_usage = complain usage
canonical_caption L w user filename slash put_usage = complain usage
canonical_caption L w user filename slash other_words = complain bad_caption
canonical_caption L w user filename slash no_words =
    if slash then complain bad_caption else smart_target L w user filename

-- The caption that is stored.
unfoldable pub spell : AdminLibrary → Intent → Text
spell L (deploying project) = codes "/deploy " ++ L.quote project
spell L (putting project target) =
    codes "/put " ++ (L.quote project ++ (codes " " ++ L.quote target))

abbrev pub is_over : ℕ → Option ℕ → Bool
is_over limit none = false
is_over limit (some size) = ltb limit size

abbrev pub file_id_of : Option Text → Work Text
file_id_of none = complain bad_file_id
file_id_of (some []) = complain bad_file_id
file_id_of (some (c ∷ s)) = return (c ∷ s)

-- What `_canonical_persistent_document` has found out before it writes the new message. The unique
-- id that it copies too, cut to 200 characters, is read by nothing.
pub record Plan : Type 0 where
  pub file_id : Text
  pub filename : Text
  pub file_size : Option ℕ
  pub intent : Intent

unfoldable pub canonical_plan_of : AdminLibrary → Policy → View → ℕ → Text → Document → Work Plan
canonical_plan_of L p w user caption document = do
  file_id ← file_id_of document.file_id
  filename ← from_result (named (safe_filename L.unicode document.file_name))
  require (not (is_over p.max_upload_bytes document.file_size)) upload_too_large
  intent ←
      canonical_caption L w user filename (starts_with (codes "/") caption)
        (caption_of (words_of L caption))
  return (record {
    file_id = file_id;
    filename = filename;
    file_size = document.file_size;
    intent = intent;
  })

unfoldable pub canonical_plan : AdminLibrary → Policy → View → ℕ → Upload → Work Plan
canonical_plan L p w user up = elim up.document [
  | none ↦ complain no_document
  | some document ↦ canonical_plan_of L p w user (strip L.unicode.is_space up.caption) document
]

-- The message that is stored.
unfoldable pub stored : AdminLibrary → Plan → Upload
stored L plan = record {
  document = some (record {
    file_id = some plan.file_id;
    file_name = plan.filename;
    file_size = plan.file_size;
  });
  caption = spell L plan.intent;
}

unfoldable pub canonical_document : AdminLibrary → Policy → View → ℕ → Upload → Work Upload
canonical_document L p w user up = canonical_plan L p w user up >>= λ plan. return (stored L plan)
