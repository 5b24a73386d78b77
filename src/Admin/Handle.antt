-- ===== src/Admin/Handle.antt =====
-- `handle` of src/titanbox/plugins/deploy_admin.py: who is served, how often, and what becomes of an
-- error.
pub mod Authorization
pub mod Replay
pub mod Used
use vpsssssskjwjw.Prelude.{
  ℕ, Bool, true, false, ◌&&◌, ◌||◌, not, Option, none, some, List, [], ◌∷◌, Text, text_eq, nat_eq,
  ◌==◌, codes, contains, if◌then◌else◌,
}
use vpsssssskjwjw.Prelude.Dict.{lookup, insert}
use vpsssssskjwjw.Prelude.Result.{Result, ok, err}
use vpsssssskjwjw.Security.TokenBucket
use vpsssssskjwjw.Security.TokenBucket.{TokenBucket, make, allow}
use vpsssssskjwjw.Deploy.Paths.{strip}
use vpsssssskjwjw.Admin.Action.{Action, return, throw, from_result, modify, ◌>>=◌, ◌>>◌}
use vpsssssskjwjw.Admin.Desk.{
  Policy, AdminLibrary, AdminError, deploy_error, internal_error, Upload, handle_document, whoami,
  reply, not_authorized, slow_down, hint, failed_inside, refused, command_denied, internal, audited,
  spawned, Command, start, Desk, View, Work, emit, send, require_privileged,
}
use vpsssssskjwjw.Admin.Documents.{words_of, canonical_document}
use vpsssssskjwjw.Admin.Commands.{command_of, run_command, job_key, enqueue_job, unless_queued}

-- What `_actor` and `handle` read of an update with a message. `sender` is `none` unless it is a
-- natural number, `number` is the decimal number of the update, and a message without a document has
-- the upload without one.
pub record Update : Type 0 where
  pub number : Text
  pub sender : Option ℕ
  pub has_chat : Bool
  pub chat_type : Text
  pub text : Text
  pub upload : Upload

-- `_limiter`, the bucket of the user, and what `allow` answers.
abbrev pub bucket_of : Policy → ℕ → Option TokenBucket → TokenBucket
bucket_of p now (some b) = b
bucket_of p now none = make p.admin_rate_per_minute p.admin_rate_burst now

unfoldable pub take_token : Policy → View → ℕ → Work Bool
take_token p w user d =
    let (allowed, b) = allow (bucket_of p w.now (lookup user d.limiters)) TokenBucket.unit w.now in
    (ok allowed, record d { limiters = insert user b d.limiters })

unfoldable pub queue_upload : AdminLibrary → Policy → View → ℕ → Text → Upload → Work (Unit {0})
queue_upload L p w user number up = do
  message ← canonical_document L p w user up
  queued ← enqueue_job p w user (job_key p number (codes "document")) (handle_document message)
  unless_queued user (handle_document up) queued

-- An upload: a job of its canonical form if jobs persist, else a task.
unfoldable pub submit_upload : AdminLibrary → Policy → View → ℕ → Text → Upload → Work (Unit {0})
unfolding emit
submit_upload L p w user number up =
    if p.persistent_jobs
    then queue_upload L p w user number up
    else emit (spawned user (handle_document up))

abbrev pub has_document : Upload → Bool
has_document up = elim up.document [ none ↦ false | some document ↦ true ]

-- What `handle` does with a message that is no command.
unfoldable pub take_message :
    AdminLibrary → Policy → View → ℕ → Text → Text → Upload → Work (Unit {0})
take_message L p w user number text up =
    if has_document up
    then require_privileged p w user >> submit_upload L p w user number up
    else if not (text == [])
    then send w user hint
    else return tt

unfoldable pub dispatch :
    AdminLibrary
    → Policy
    → View
    → ℕ
    → Text
    → Text
    → Upload
    → List Text
    → Option Command
    → Work (Unit {0})
dispatch L p w user number text up words (some c) = run_command L p w user number words c
dispatch L p w user number text up words none = take_message L p w user number text up

-- The two `except` clauses.
unfoldable pub rescue :
    View → ℕ → Result AdminError (Unit {0}) × Desk → Result AdminError (Unit {0}) × Desk
unfolding emit send
rescue w user (ok u, d) = (ok u, d)
rescue w user (err (deploy_error c), d) =
    (emit (audited user command_denied) >> send w user (refused c)) d
rescue w user (err internal_error, d) =
    (emit (audited user internal) >> send w user failed_inside) d

-- An administrator's message, once a token is taken.
unfoldable pub serve : AdminLibrary → Policy → View → ℕ → Update → Work (Unit {0})
serve L p w user u d =
    let text = strip L.unicode.is_space u.text in
    let words = words_of L text in
    rescue w user (dispatch L p w user u.number text u.upload words (command_of words) d)

abbrev pub if_allowed : AdminLibrary → Policy → View → ℕ → Update → Bool → Work (Unit {0})
if_allowed L p w user u true = serve L p w user u
if_allowed L p w user u false = send w user slow_down

abbrev is_greeting : Option Command → Bool
is_greeting (some start) = true
is_greeting (some whoami) = true
is_greeting _ = false

-- Someone who is no administrator.
unfoldable pub turn_away : AdminLibrary → View → ℕ → Update → Work (Unit {0})
turn_away L w user u =
    if is_greeting (command_of (words_of L (strip L.unicode.is_space u.text)))
    then send w user (reply whoami)
    else send w user not_authorized

-- `chat.get("type") in {None, "", "private"}`; a type that is missing is empty.
abbrev pub accepts_chat : Text → Bool
accepts_chat kind = kind == [] || kind == codes "private"

unfoldable pub handle_from : AdminLibrary → Policy → View → ℕ → Update → Work (Unit {0})
handle_from L p w user u =
    if not (u.has_chat && accepts_chat u.chat_type)
    then return tt
    else if not (contains p.admin_ids user)
    then turn_away L w user u
    else take_token p w user >>= if_allowed L p w user u

abbrev pub handle_sender : AdminLibrary → Policy → View → Update → Option ℕ → Work (Unit {0})
handle_sender L p w u none = return tt
handle_sender L p w u (some user) = handle_from L p w user u

unfoldable pub handle : AdminLibrary → Policy → View → Update → Work (Unit {0})
handle L p w u = handle_sender L p w u u.sender
