-- ===== src/Admin/Handle/Authorization.antt =====
-- Who can change a deployment through `handle` of src/titanbox/plugins/deploy_admin.py.
use vpsssssskjwjw.Prelude.{
  ℕ, ◌≡◌, refl, Bool, true, false, ◌&&◌, not, Option, none, some, List, [], ◌∷◌, Text, text_eq,
  nat_eq, ◌==◌, contains, if◌then◌else◌, Bool-cases, inl, inr, ◌⊎◌, arith,
}
use vpsssssskjwjw.Prelude.Dict.{lookup}
use vpsssssskjwjw.Prelude.Result.{Result, ok, err}
use vpsssssskjwjw.Security.Totp.{verify_totp}
use vpsssssskjwjw.Deploy.Paths.{strip}
use vpsssssskjwjw.Admin.Action.{
  Keeps, return, throw, from_result, modify, ◌>>=◌, ◌>>◌, throw-Keeps, from_result-Keeps, >>=-Keeps,
  if-Keeps, keep_rules,
}
use vpsssssskjwjw.Admin.Desk
use vpsssssskjwjw.Admin.Desk.{
  Policy, AdminLibrary, AdminError, deploy_error, internal_error, Upload, Effect, sent, audited,
  enqueued, spawned, reply, slow_down, hint, Message, Command, start, help, whoami, diag, system,
  security, infra, setup, wake, auth, lock, audit, jobs, projects, use_project, status, files,
  releases, backups, restore, rollback, restart, Desk, View, Work, emit, send, require_privileged,
  twofa_active, authenticate, check_code, after_code, with_argument, or_internal, command_denied,
  refused, internal, failed_inside, only_argument,
}
use vpsssssskjwjw.Admin.Documents.{words_of}
use vpsssssskjwjw.Admin.Commands.{
  command_of, run_command, show_data, use_named, lone_argument, show_project, restore_words,
  rollback_words, restart_words, lock_session, close_session,
}
use vpsssssskjwjw.Admin.Handle.{
  Update, take_token, take_message, dispatch, rescue, serve, if_allowed, turn_away, handle_sender,
  handle_from, handle, has_document, accepts_chat, submit_upload,
}

-- The effects that change a deployment, now or as a job.
abbrev pub acts : List Effect → List Effect
acts [] = []
acts (sent user m ∷ es) = acts es
acts (audited user a ∷ es) = acts es
acts (enqueued user key op ∷ es) = enqueued user key op ∷ acts es
acts (spawned user op ∷ es) = spawned user op ∷ acts es

-- The effects so far that change a deployment are these.
abbrev Acts : List Effect → Desk → Type 0
Acts A d = acts d.effects ≡ A

module _ (A : List Effect) where
  sent-Keeps : (user : ℕ) (m : Message) → Keeps (Acts A) (emit (sent user m))
  unfolding emit
  sent-Keeps user m = record { keep = λ s p. p }

  send-Keeps : (w : View) (user : ℕ) (m : Message) → Keeps (Acts A) (send w user m)
  unfolding send
  send-Keeps w user m =
      if-Keeps (w.delivers m) (emit (sent user m)) (throw internal_error) (sent-Keeps user m)
        (throw-Keeps internal_error)

  audited-Keeps : (user : ℕ) (a : Desk.Audited) → Keeps (Acts A) (emit (audited user a))
  unfolding emit
  audited-Keeps user a = record { keep = λ s p. p }

  show_data-Keeps :
      (w : View) (user : ℕ) (c : Command) (words : List Text)
      → Keeps (Acts A) (show_data w user c words)
  unfolding show_data
  show_data-Keeps w user c words = search (keep_rules, send-Keeps)

  ruleset quiet_rules = (keep_rules, send-Keeps, audited-Keeps, show_data-Keeps)

  unlocked-Keeps :
      (user counter until : ℕ)
      → Keeps (Acts A) (modify {X = AdminError} (Desk.open_session user counter until))
  unlocked-Keeps user counter until = record { keep = λ s p. p }

  locked-Keeps : (user : ℕ) → Keeps (Acts A) (modify {X = AdminError} (close_session user))
  locked-Keeps user = record { keep = λ s p. p }

  after_code-Keeps :
      (p : Policy) (w : View) (user : ℕ) (o : Option ℕ) → Keeps (Acts A) (after_code p w user o)
  after_code-Keeps p w user none = search quiet_rules
  after_code-Keeps p w user (some c) = search (quiet_rules, unlocked-Keeps)

  check_code-Keeps :
      (L : AdminLibrary) (p : Policy) (w : View) (user : ℕ) (code : Text)
      → Keeps (Acts A) (check_code L p w user code)
  unfolding check_code
  check_code-Keeps L p w user code = record {
    keep = λ s q.
        (>>=-Keeps
            (from_result (
              or_internal (
                verify_totp L.totp p.totp_secret code w.unix_time 30 1
                  (lookup user s.last_totp_counter))))
            (after_code p w user) (from_result-Keeps _) (after_code-Keeps p w user)).keep
          s q;
  }

  with_argument-Keeps :
      (L : AdminLibrary) (p : Policy) (w : View) (user : ℕ) (o : Option Text)
      → Keeps (Acts A) (with_argument L p w user o)
  with_argument-Keeps L p w user none = search quiet_rules
  with_argument-Keeps L p w user (some code) = check_code-Keeps L p w user code

  authenticate-Keeps :
      (L : AdminLibrary) (p : Policy) (w : View) (user : ℕ) (words : List Text)
      → Keeps (Acts A) (authenticate L p w user words)
  unfolding authenticate
  authenticate-Keeps L p w user words = search (quiet_rules, with_argument-Keeps)

  lock-Keeps : (w : View) (user : ℕ) → Keeps (Acts A) (lock_session w user)
  lock-Keeps w user = search (quiet_rules, locked-Keeps)

  rescue-keep :
      (w : View) (user : ℕ) (o : Result AdminError (Unit {0}) × Desk)
      → Acts A o.1
      → Acts A (rescue w user o).1
  unfolding rescue
  rescue-keep w user (ok u, d) q = q
  rescue-keep w user (err (deploy_error c), d) q =
      let k : Keeps (Acts A) (emit (audited user command_denied) >> send w user (refused c)) =
        search quiet_rules in
      k.keep d q
  rescue-keep w user (err internal_error, d) q =
      let k : Keeps (Acts A) (emit (audited user internal) >> send w user failed_inside) =
        search quiet_rules in
      k.keep d q

  -- Without a session nothing after the check of it runs.
  module _ (p : Policy) (w : View) (user : ℕ) (d : Desk)
      (locked : twofa_active p w.now user d ≡ false) (q : Acts A d) where
    privileged-keep : {B : Type 0} (m : Work B) → Acts A ((require_privileged p w user >> m) d).1
    unfolding require_privileged twofa_active ◌>>=◌
    privileged-keep m = ground (arith, locked, q)

    command-keep :
        (L : AdminLibrary) (number : Text) (words : List Text) (c : Command)
        → Acts A (run_command L p w user number words c d).1
    unfolding run_command
    command-keep L number words start = (send-Keeps w user (reply start)).keep d q
    command-keep L number words help = (send-Keeps w user (reply help)).keep d q
    command-keep L number words whoami = (send-Keeps w user (reply whoami)).keep d q
    command-keep L number words diag = (show_data-Keeps w user diag words).keep d q
    command-keep L number words system = (show_data-Keeps w user system words).keep d q
    command-keep L number words security = (show_data-Keeps w user security words).keep d q
    command-keep L number words infra = (show_data-Keeps w user infra words).keep d q
    command-keep L number words setup = (send-Keeps w user (reply setup)).keep d q
    command-keep L number words wake = (send-Keeps w user (reply wake)).keep d q
    command-keep L number words auth = (authenticate-Keeps L p w user words).keep d q
    command-keep L number words lock = (lock-Keeps w user).keep d q
    command-keep L number words audit = privileged-keep (show_data w user audit words)
    command-keep L number words jobs = privileged-keep (show_data w user jobs words)
    command-keep L number words projects = privileged-keep (show_data w user projects words)
    command-keep L number words use_project =
        privileged-keep (use_named L w user (lone_argument words))
    command-keep L number words status = privileged-keep (show_project L w user status words)
    command-keep L number words files = privileged-keep (show_project L w user files words)
    command-keep L number words releases = privileged-keep (show_project L w user releases words)
    command-keep L number words backups = privileged-keep (show_project L w user backups words)
    command-keep L number words restore = privileged-keep (restore_words L p w user number words)
    command-keep L number words rollback = privileged-keep (rollback_words L p w user number words)
    command-keep L number words restart = privileged-keep (restart_words L p w user number words)

    message-keep :
        (L : AdminLibrary) (number text : Text) (up : Upload)
        → Acts A (take_message L p w user number text up d).1
    unfolding take_message
    message-keep L number text up = elim (Bool-cases (has_document up)) [
      | inl h ↦ rw h (privileged-keep (submit_upload L p w user number up))
      | inr h ↦
          let k : Keeps (Acts A) (if not (text == []) then send w user hint else return tt) =
            search quiet_rules in
          rw h (k.keep d q)
    ]

    dispatch-keep :
        (L : AdminLibrary) (number text : Text) (up : Upload) (words : List Text)
        (c : Option Command)
        → Acts A (dispatch L p w user number text up words c d).1
    unfolding dispatch
    dispatch-keep L number text up words none = message-keep L number text up
    dispatch-keep L number text up words (some c) = command-keep L number words c

    serve-keep : (L : AdminLibrary) (u : Update) → Acts A (serve L p w user u d).1
    unfolding serve
    serve-keep L u = rescue-keep w user _ (
        dispatch-keep L u.number (strip L.unicode.is_space u.text) u.upload _
          (command_of (words_of L (strip L.unicode.is_space u.text))))

    allowed-keep :
        (L : AdminLibrary) (u : Update) (b : Bool) → Acts A (if_allowed L p w user u b d).1
    allowed-keep L u true = serve-keep L u
    allowed-keep L u false = (send-Keeps w user slow_down).keep d q

  turn_away-Keeps :
      (L : AdminLibrary) (w : View) (user : ℕ) (u : Update) → Keeps (Acts A) (turn_away L w user u)
  unfolding turn_away
  turn_away-Keeps L w user u = search quiet_rules

-- The message is an administrator's in a chat that is private or has no type, and nothing is missing of the second factor.
abbrev pub IsAuthorized : Policy → View → Update → Desk → ℕ → Type 0
IsAuthorized p w u d user =
    ((u.has_chat && accepts_chat u.chat_type) ≡ true)
    × (contains p.admin_ids user ≡ true)
    × (twofa_active p w.now user d ≡ true)

handle_from-IsAuthorized :
    (L : AdminLibrary) (p : Policy) (w : View) (user : ℕ) (u : Update) (d : Desk)
    → (acts (handle_from L p w user u d).1.effects ≡ acts d.effects) ⊎ IsAuthorized p w u d user
unfolding handle_from take_token twofa_active ◌>>=◌
handle_from-IsAuthorized L p w user u d =
    elim (Bool-cases (u.has_chat && accepts_chat u.chat_type)) [
      | inr c ↦ inl (rw c refl)
      | inl c ↦ elim (Bool-cases (contains p.admin_ids user)) [
        | inr m ↦ inl (rw (c, m) ((turn_away-Keeps (acts d.effects) L w user u).keep d refl))
        | inl m ↦ elim (Bool-cases (twofa_active p w.now user d)) [
          | inl s ↦ inr (c, m, s)
          | inr s ↦ inl (rw (c, m) (allowed-keep (acts d.effects) p w user _ s refl L u _))
        ]
      ]
    ]

sender-IsAuthorized :
    (L : AdminLibrary) (p : Policy) (w : View) (u : Update) (d : Desk) (sender : Option ℕ)
    → (acts (handle_sender L p w u sender d).1.effects ≡ acts d.effects)
      ⊎ ((user : ℕ) × (sender ≡ some user) × IsAuthorized p w u d user)
sender-IsAuthorized L p w u d none = inl refl
sender-IsAuthorized L p w u d (some user) = elim (handle_from-IsAuthorized L p w user u d) [
  | inl q ↦ inl q
  | inr a ↦ inr (user, refl, a)
]

-- Whatever update is handled, either no job is queued and no task started by it, or its sender is
-- known, it is from a chat that is private or whose type is missing, the sender is an administrator, and the sender's session of the
-- second factor, where one is required, is open when the update arrives.
pub handle-IsAuthorized :
    (L : AdminLibrary) (p : Policy) (w : View) (u : Update) (d : Desk)
    → (acts (handle L p w u d).1.effects ≡ acts d.effects)
      ⊎ ((user : ℕ) × (u.sender ≡ some user) × IsAuthorized p w u d user)
unfolding handle
handle-IsAuthorized L p w u d = sender-IsAuthorized L p w u d u.sender
