-- ===== src/Admin/Desk.antt =====
-- The state of `DeployAdminPlugin` in src/titanbox/plugins/deploy_admin.py, what its methods do
-- outside, and the second factor: `_twofa_active`, `_require_privileged`, `_auth`. A Telegram user is
-- a natural number: an administrator's id is positive, so every other integer stands for one that is
-- no administrator. `time.monotonic` is in milliseconds and is read once for an update.
use vpsssssskjwjw.Prelude.{
  ℕ, ◌+◌, Bool, true, false, ◌||◌, not, Option, none, some, List, [], ◌∷◌, Text, text_eq, nat_eq,
  ◌==◌, ltb, if◌then◌else◌,
}
use vpsssssskjwjw.Prelude.Dict.{Dict, lookup, insert}
use vpsssssskjwjw.Prelude.Result.{Result, ok, err}
use vpsssssskjwjw.Security.TokenBucket.{TokenBucket}
use vpsssssskjwjw.Security.Totp.{TotpLibrary, verify_totp}
use vpsssssskjwjw.Deploy.Paths.{UnicodeLibrary}
use vpsssssskjwjw.Admin.Action.{Action, return, throw, from_result, modify, ◌>>=◌, ◌>>◌}

-- What `bind_services` keeps of the settings; a secret that is not set is empty.
pub record Policy : Type 0 where
  pub bot_name : Text
  pub admin_ids : List ℕ
  pub require_2fa : Bool
  pub totp_secret : Text
  pub twofa_session_ms : ℕ
  pub admin_rate_per_minute : ℕ
  pub admin_rate_burst : ℕ
  pub max_upload_bytes : ℕ
  pub persistent_jobs : Bool

-- `shlex.split` (`none` is its `ValueError`), `shlex.quote`, and `str.lower`.
pub record AdminLibrary : Type 0 where
  pub unicode : UnicodeLibrary
  pub totp : TotpLibrary
  pub split : Text → Option (List Text)
  pub quote : Text → Text
  pub lower : Text → Text

-- The reasons of a `DeployError`.
pub data Complaint : Type 0 where
  twofa_unconfigured session_needed usage invalid_name choose_project no_document bad_file_id :
      Complaint
  upload_too_large bad_caption not_a_zip zip_needs_caption ambiguous_target unknown_target :
      Complaint
  no_releases no_such_release already_active no_previous no_backup : Complaint
  unreadable invalid_payload unknown_kind : Complaint

pub data AdminError : Type 0 where
  deploy_error : Complaint → AdminError
  internal_error : AdminError

-- The document of a message: its file name is `upload.bin` if there is none.
pub record Document : Type 0 where
  pub file_id : Option Text
  pub file_name : Text
  pub file_size : Option ℕ

pub record Upload : Type 0 where
  pub document : Option Document
  pub caption : Text

-- The work of an administrator, as a queued job and as a task.
pub data Operation : Type 0 where
  handle_document : Upload → Operation
  restoring : Text → Text → Operation
  rolling_back : Text → Option Text → Operation
  restarting : Text → Operation

pub data Command : Type 0 where
  start help whoami diag system security infra setup wake auth lock audit jobs : Command
  projects use_project status files releases backups restore rollback restart : Command

-- The messages, by what they are about.
pub data Message : Type 0 where
  reply : Command → Message
  not_authorized twofa_off wrong_code slow_down hint failed_inside queued_notice : Message
  refused : Complaint → Message

pub data Audited : Type 0 where
  auth_misconfigured auth_failed auth_success lock_success command_denied internal : Audited

-- What leaves the plugin.
pub data Effect : Type 0 where
  sent : ℕ → Message → Effect
  audited : ℕ → Audited → Effect
  enqueued : ℕ → Text → Operation → Effect
  spawned : ℕ → Operation → Effect

-- `effects` stands newest first.
pub record Desk : Type 0 where
  pub active_project : Dict ℕ Text
  pub auth_until : Dict ℕ ℕ
  pub last_totp_counter : Dict ℕ ℕ
  pub limiters : Dict ℕ TokenBucket
  pub effects : List Effect

-- How the calls outside fare while an update is handled: the clocks, what the manager answers, which
-- messages Telegram takes, and whether the database takes a job.
pub record View : Type 0 where
  pub now : ℕ
  pub unix_time : ℕ
  pub delivers : Message → Bool
  pub projects : List Text
  pub releases : Text → List Text
  pub current : Text → Option Text
  pub backups : Text → Result AdminError (List Text)
  pub matches : Text → Text → List Text
  pub reads : Command → List Text → Result AdminError (Unit {0})
  pub takes_jobs : Bool

abbrev pub Work : Type 0 → Type 0
Work A = Action AdminError Desk A

unfoldable pub emit : Effect → Work (Unit {0})
emit e d = (ok tt, record d { effects = e ∷ d.effects })

abbrev pub complain : {A : Type 0} → Complaint → Work A
complain c = throw (deploy_error c)

abbrev pub require : Bool → Complaint → Work (Unit {0})
require true c = return tt
require false c = complain c

-- `bot.send_message`, which raises if Telegram does not take the message.
unfoldable pub send : View → ℕ → Message → Work (Unit {0})
unfolding emit
send w user m = if w.delivers m then emit (sent user m) else throw internal_error

-- `time.monotonic() < self._auth_until.get(user_id, 0.0)`
abbrev pub before : ℕ → Option ℕ → Bool
before now none = false
before now (some t) = ltb now t

unfoldable pub twofa_active : Policy → ℕ → ℕ → Desk → Bool
twofa_active p now user d = not p.require_2fa || before now (lookup user d.auth_until)

unfoldable pub require_privileged : Policy → View → ℕ → Work (Unit {0})
unfolding twofa_active
require_privileged p w user d =
    if not p.require_2fa
    then (ok tt, d)
    else if p.totp_secret == []
    then (err (deploy_error twofa_unconfigured), d)
    else if not (twofa_active p w.now user d)
    then (err (deploy_error session_needed), d)
    else (ok tt, d)

-- The second word of `/auth`, if there are two.
abbrev pub only_argument : List Text → Option Text
only_argument (c ∷ a ∷ []) = some a
only_argument _ = none

abbrev pub open_session : ℕ → ℕ → ℕ → Desk → Desk
open_session user counter until d = record d {
  last_totp_counter = insert user counter d.last_totp_counter;
  auth_until = insert user until d.auth_until;
}

-- What `_auth` makes of the answer of `verify_totp`.
abbrev pub after_code : Policy → View → ℕ → Option ℕ → Work (Unit {0})
after_code p w user none = emit (audited user auth_failed) >> send w user wrong_code
after_code p w user (some counter) =
    modify (open_session user counter (w.now + p.twofa_session_ms))
    >> (emit (audited user auth_success) >> send w user (reply auth))

abbrev pub or_internal : {E A : Type 0} → Result E A → Result AdminError A
or_internal (ok a) = ok a
or_internal (err e) = err internal_error

unfoldable pub check_code : AdminLibrary → Policy → View → ℕ → Text → Work (Unit {0})
check_code L p w user code d =
    (from_result (
          or_internal (
            verify_totp L.totp p.totp_secret code w.unix_time 30 1
              (lookup user d.last_totp_counter)))
        >>= after_code p w user)
      d

abbrev pub with_argument : AdminLibrary → Policy → View → ℕ → Option Text → Work (Unit {0})
with_argument L p w user none = complain usage
with_argument L p w user (some code) = check_code L p w user code

unfoldable pub authenticate : AdminLibrary → Policy → View → ℕ → List Text → Work (Unit {0})
authenticate L p w user words =
    if not p.require_2fa
    then send w user twofa_off
    else if p.totp_secret == []
    then emit (audited user auth_misconfigured) >> complain twofa_unconfigured
    else with_argument L p w user (only_argument words)
