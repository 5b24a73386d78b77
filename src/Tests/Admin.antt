-- ===== src/Tests/Admin.antt =====
-- The Deploy Admin plugin of src/titanbox/plugins/deploy_admin.py at concrete inputs.
use vpsssssskjwjw.Prelude.{
  ℕ, ◌≤◌, ◌≡◌, refl, Bool, true, false, Option, none, some, List, [], ◌∷◌, ◌++◌, drop, Text,
  text_dec, ℕ_discrete, text_eq, nat_eq, ◌==◌, codes, arith, inl, inr, ◌⊎◌, ltb, if◌then◌else◌,
}
use vpsssssskjwjw.Prelude.Dict.{lookup}
use vpsssssskjwjw.Prelude.Result.{ok, err}
use vpsssssskjwjw.Security.Totp.{TotpLibrary}
use vpsssssskjwjw.Deploy.Paths.{UnicodeLibrary, strip, safe_filename, validate_project_name}
use vpsssssskjwjw.Database.Jobs
use vpsssssskjwjw.Database.Jobs.{Job, queued, find_id, claim_job}
use vpsssssskjwjw.Database.Jobs.Rows.{rows_with}
use vpsssssskjwjw.Admin.Desk.{
  Policy, AdminLibrary, Document, Upload, Desk, View, restarting, AdminError, internal_error,
  restarting, Operation,
}
use vpsssssskjwjw.Admin.Documents.{
  Intent, deploying, putting, Plan, canonical_plan, resolve_upload, stored, spell,
}
use vpsssssskjwjw.Admin.Documents.Canonical.{Agrees, canonical-Agrees, stored_settled}
use vpsssssskjwjw.Admin.Documents.Spelling.{IsShlex}
use vpsssssskjwjw.Admin.Handle.{Update, handle}
use vpsssssskjwjw.Admin.Handle.Authorization.{acts, IsAuthorized, handle-IsAuthorized}
use vpsssssskjwjw.Admin.Jobs.{JobPayload, JobLibrary, work_once}
use vpsssssskjwjw.Admin.Jobs.Settled.{IsSettled, final_state, work_once_settles}

abbrev cons_word : ℕ → List Text → List Text
cons_word c [] = (c ∷ []) ∷ []
cons_word c (w ∷ ws) = (c ∷ w) ∷ ws

-- Words apart by spaces, without quotes.
abbrev words : Text → List Text
words [] = [] ∷ []
words (c ∷ s) = if c == 32 then [] ∷ words s else cons_word c (words s)

abbrev unicode : UnicodeLibrary
unicode = record { is_space = λ c. c == 32; is_invisible = λ c. ltb c 32; nfc = λ s. s }

-- A library whose HMAC begins with the last four bytes of the counter.
abbrev zeros : Text
zeros = 0 ∷ 0 ∷ 0 ∷ 0 ∷ 0 ∷ 0 ∷ 0 ∷ 0 ∷ 0 ∷ 0 ∷ 0 ∷ 0 ∷ 0 ∷ 0 ∷ 0 ∷ 0 ∷ 0 ∷ 0 ∷ 0 ∷ 0 ∷ []

abbrev library : AdminLibrary
library = record {
  unicode = unicode;
  totp = record {
    is_space = λ c. c == 32;
    is_digit = λ c. if ltb c 48 then false else ltb c 58;
    upper = λ s. s;
    b32decode = λ s. some s;
    hmac_sha1 = λ key message. drop 4 message ++ (zeros);
  };
  split = λ s. some (words s);
  quote = λ s. s;
  lower = λ s. s;
}

abbrev policy : Policy
policy = record {
  bot_name = codes "admin";
  admin_ids = 7 ∷ [];
  require_2fa = true;
  totp_secret = codes "A";
  twofa_session_ms = 600000;
  admin_rate_per_minute = 30;
  admin_rate_burst = 10;
  max_upload_bytes = 1000;
  persistent_jobs = true;
}

abbrev view : View
view = record {
  now = 5000;
  unix_time = 60;
  delivers = λ m. true;
  projects = codes "demo" ∷ [];
  releases = λ p. codes "r2" ∷ codes "r1" ∷ [];
  current = λ p. some (codes "r2");
  backups = λ p. ok (codes "r1" ∷ []);
  matches = λ p f. codes "src/a.py" ∷ [];
  reads = λ c ws. ok tt;
  takes_jobs = true;
}

-- An open session of the administrator 7, whose last code was of the counter 0.
abbrev desk : Desk
desk = record {
  active_project = [];
  auth_until = (7, 9000) ∷ [];
  last_totp_counter = (7, 0) ∷ [];
  limiters = [];
  effects = [];
}

abbrev file : Document
file = record { file_id = some (codes "f"); file_name = codes "a.py"; file_size = some 10 }

-- A file without a caption.
abbrev upload : Upload
upload = record { document = some file; caption = [] }

abbrev plan : Plan
plan = record {
  file_id = codes "f";
  filename = codes "a.py";
  file_size = some 10;
  intent = putting (codes "demo") (codes "src/a.py");
}

plan-IsShlex : IsShlex library (codes "demo") (codes "src/a.py")
unfolding spell ℕ_discrete strip vpsssssskjwjw.Deploy.Paths.drop_spaces
plan-IsShlex = record {
  deploy_line = refl;
  put_line = refl;
  deploy_ends = refl;
  put_ends = refl;
  lower_deploy = refl;
  lower_put = refl;
}

plan_made : (canonical_plan library policy view 7 upload desk).0 ≡ ok plan
unfolding canonical_plan vpsssssskjwjw.Admin.Documents.canonical_plan_of
    vpsssssskjwjw.Admin.Action.◌>>=◌ safe_filename text_dec vpsssssskjwjw.Deploy.Paths.parts
    vpsssssskjwjw.Deploy.Paths.components vpsssssskjwjw.Deploy.Paths.split_slash
    vpsssssskjwjw.Admin.Documents.canonical_caption vpsssssskjwjw.Admin.Documents.caption_of
    vpsssssskjwjw.Admin.Documents.words_of strip vpsssssskjwjw.Deploy.Paths.drop_spaces
    vpsssssskjwjw.Admin.Documents.smart_target vpsssssskjwjw.Admin.Documents.pick_project lookup
    vpsssssskjwjw.Admin.Documents.is_zip ℕ_discrete vpsssssskjwjw.Admin.Documents.before_at
    vpsssssskjwjw.Admin.Documents.command_parts vpsssssskjwjw.Deploy.Paths.check_parts
    vpsssssskjwjw.Deploy.Paths.join_slash vpsssssskjwjw.Deploy.Paths.to_slashes
    validate_project_name vpsssssskjwjw.Deploy.Paths.validate_relative_path
    vpsssssskjwjw.Prelude.Dict.insert
plan_made = refl

canonical-Agrees_example :
    (j : Intent) × ((resolve_upload library view 7 upload desk).0 ≡ ok (some j))
    × Agrees library (putting (codes "demo") (codes "src/a.py")) j
canonical-Agrees_example = canonical-Agrees library policy view 7 upload desk plan plan_made

stored_settled_example :
    (resolve_upload library (record view { projects = [] }) 8 (stored library plan) desk).0
    ≡ ok (some (putting (codes "demo") (codes "src/a.py")))
unfolding safe_filename text_dec vpsssssskjwjw.Deploy.Paths.parts
    vpsssssskjwjw.Deploy.Paths.components vpsssssskjwjw.Deploy.Paths.split_slash
    validate_project_name strip vpsssssskjwjw.Deploy.Paths.drop_spaces
stored_settled_example =
    stored_settled library policy view 7 upload desk plan plan_made plan-IsShlex refl refl
      (record view { projects = [] }) 8 desk

abbrev update : Update
update = record {
  number = codes "41";
  sender = some 7;
  has_chat = true;
  chat_type = codes "private";
  text = codes "/restart demo";
  upload = record { document = none; caption = [] };
}

handle-IsAuthorized_example :
    (acts (handle library policy view update desk).1.effects ≡ acts desk.effects)
    ⊎ ((user : ℕ) × (some 7 ≡ some user) × IsAuthorized policy view update desk user)
handle-IsAuthorized_example = handle-IsAuthorized library policy view update desk

-- The code of the counter 1: the code of a counter is its last digits.
abbrev code : Text
code = codes "000001"

abbrev job : Job JobPayload
job = record {
  id = 1;
  unique_key = codes "admin:41:restart";
  kind = codes "restart";
  payload = record {
    actor_id = some 7;
    has_chat = true;
    message = none;
    project = some (codes "demo");
    release = none;
  };
  state = queued;
  attempts = 0;
  max_attempts = 5;
  available_at = 0;
  locked_at = none;
  last_error = none;
}

abbrev table : Jobs.Database JobPayload
table = record { enabled = true; pool = true; next_id = 2; jobs = job ∷ [] }

-- Work that breaks down.
abbrev broken : JobLibrary
broken = record { perform = λ op. err internal_error; describe = λ e. codes "broken" }

abbrev running_job : Job JobPayload
running_job = record job { state = Jobs.running; attempts = 1; locked_at = some 100 }

table_unique : (i : ℕ) → rows_with i table.jobs ≤ 1
unfolding rows_with
table_unique i = ground arith

work_once_settles_example :
    (row : Job JobPayload) × (find_id 1 (work_once broken policy 100 130 table).jobs ≡ some row)
    × IsSettled 130 running_job (final_state broken policy running_job) row
unfolding claim_job Jobs.claim_first Jobs.is_ready Jobs.sweep_row text_dec Jobs.claimed
work_once_settles_example =
    work_once_settles broken policy 100 130 table running_job refl table_unique refl
