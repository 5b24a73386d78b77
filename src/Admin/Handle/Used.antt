-- ===== src/Admin/Handle/Used.antt =====
-- The methods of src/titanbox/plugins/deploy_admin.py that do not touch the last counter of the second
-- factor.
use vpsssssskjwjw.Prelude.{
  ℕ, ◌≤◌, ◌≡◌, Bool, true, false, Option, none, some, List, [], ◌∷◌, Text, text_eq, nat_eq, arith,
}
use vpsssssskjwjw.Prelude.Dict.{lookup, insert}
use vpsssssskjwjw.Deploy.Paths.{strip, validate_project_name}
use vpsssssskjwjw.Admin.Action.{
  Action, Keeps, return, throw, from_result, modify, ◌>>=◌, ◌>>◌, return-Keeps, throw-Keeps,
  from_result-Keeps, >>=-Keeps, if-Keeps, keep_rules,
}
use vpsssssskjwjw.Admin.Desk.{
  Policy, AdminLibrary, Complaint, complain, require, Document, no_document, AdminError, Upload,
  Effect, Operation, Message, Command, Desk, View, Work, emit, send, require_privileged,
}
use vpsssssskjwjw.Admin.Documents.{
  Caption, no_words, other_words, deploy_usage, put_usage, deploy_words, put_words, Plan,
  file_id_of, only_match, smart_target, canonical_caption, canonical_plan_of, canonical_plan, named,
  choose, pick_listed, pick_active, pick_project, canonical_document,
}
use vpsssssskjwjw.Admin.Commands.{
  close_session, show_data, show_project, use_named, lock_session, enqueue_job, unless_queued,
  submit, restore_project, restore_words, rollback_words, restart_words,
}
use vpsssssskjwjw.Admin.Handle.{submit_upload, queue_upload}

-- A code of the counter `n` or of a later one has been accepted from `someone`.
abbrev pub HasUsed : ℕ → ℕ → Desk → Type 0
HasUsed someone n d = (c : ℕ) × (lookup someone d.last_totp_counter ≡ some c) × (n ≤ c)

require_privileged_desk :
    (p : Policy) (w : View) (user : ℕ) (d : Desk) → (require_privileged p w user d).1 ≡ d
unfolding require_privileged
require_privileged_desk p w user d = ground arith

module _ (someone n : ℕ) where
  pub emit-Keeps : (e : Effect) → Keeps (HasUsed someone n) (emit e)
  unfolding emit
  emit-Keeps e = record { keep = λ s h. h }

  pub ruleset base_rules = (keep_rules, emit-Keeps)

  pub send-Keeps : (w : View) (user : ℕ) (m : Message) → Keeps (HasUsed someone n) (send w user m)
  unfolding send
  send-Keeps w user m = search base_rules

  pub privileged-Keeps :
      (p : Policy) (w : View) (user : ℕ) → Keeps (HasUsed someone n) (require_privileged p w user)
  unfolding require_privileged
  privileged-Keeps p w user = record { keep = λ s h. rw (require_privileged_desk p w user s) h }

  choose-Keeps : (user : ℕ) (project : Text) → Keeps (HasUsed someone n) (choose user project)
  unfolding ◌>>=◌
  choose-Keeps user project = record { keep = λ s h. h }

  listed-Keeps : (user : ℕ) (names : List Text) → Keeps (HasUsed someone n) (pick_listed user names)
  listed-Keeps user [] = search base_rules
  listed-Keeps user (project ∷ []) = choose-Keeps user project
  listed-Keeps user (project ∷ q ∷ qs) = search base_rules

  active-Keeps :
      (w : View) (user : ℕ) (o : Option Text) → Keeps (HasUsed someone n) (pick_active w user o)
  active-Keeps w user none = listed-Keeps user w.projects
  active-Keeps w user (some []) = listed-Keeps user w.projects
  active-Keeps w user (some (c ∷ s)) = search base_rules

  pub pick_project-Keeps :
      (L : AdminLibrary) (w : View) (user : ℕ) (o : Option Text)
      → Keeps (HasUsed someone n) (pick_project L w user o)
  unfolding pick_project
  pick_project-Keeps L w user none = record {
    keep = λ s. (active-Keeps w user (lookup user s.active_project)).keep s;
  }
  pick_project-Keeps L w user (some []) = record {
    keep = λ s. (active-Keeps w user (lookup user s.active_project)).keep s;
  }
  pick_project-Keeps L w user (some (c ∷ t)) = record {
    keep = λ s.
        (>>=-Keeps (from_result (named (validate_project_name L.unicode (c ∷ t)))) (choose user)
            (from_result-Keeps _) (choose-Keeps user)).keep
          s;
  }

  pub show_data-Keeps :
      (w : View) (user : ℕ) (c : Command) (words : List Text)
      → Keeps (HasUsed someone n) (show_data w user c words)
  unfolding show_data
  show_data-Keeps w user c words = search (base_rules, send-Keeps)

  pub unless_queued-Keeps :
      (user : ℕ) (op : Operation) (b : Bool) → Keeps (HasUsed someone n) (unless_queued user op b)
  unless_queued-Keeps user op true = search base_rules
  unless_queued-Keeps user op false = search base_rules

  pub enqueue_job-Keeps :
      (p : Policy) (w : View) (user : ℕ) (key : Text) (op : Operation)
      → Keeps (HasUsed someone n) (enqueue_job p w user key op)
  unfolding enqueue_job
  enqueue_job-Keeps p w user key op = search (base_rules, send-Keeps)

  pub submit-Keeps :
      (p : Policy) (w : View) (user : ℕ) (key : Text) (frozen op : Operation)
      → Keeps (HasUsed someone n) (submit p w user key frozen op)
  unfolding submit
  submit-Keeps p w user key frozen op = search (base_rules, enqueue_job-Keeps, unless_queued-Keeps)

  pub ruleset work_rules = (
    base_rules, send-Keeps, privileged-Keeps, pick_project-Keeps, show_data-Keeps,
    unless_queued-Keeps, enqueue_job-Keeps, submit-Keeps,
  )

  pub show_project-Keeps :
      (L : AdminLibrary) (w : View) (user : ℕ) (c : Command) (words : List Text)
      → Keeps (HasUsed someone n) (show_project L w user c words)
  unfolding show_project
  show_project-Keeps L w user c words = search work_rules

  require-Keeps : (b : Bool) (c : Complaint) → Keeps (HasUsed someone n) (require b c)
  require-Keeps true c = search base_rules
  require-Keeps false c = search base_rules

  file_id_of-Keeps : (o : Option Text) → Keeps (HasUsed someone n) (file_id_of o)
  file_id_of-Keeps none = search base_rules
  file_id_of-Keeps (some []) = search base_rules
  file_id_of-Keeps (some (c ∷ s)) = search base_rules

  only_match-Keeps :
      (project : Text) (found : List Text) → Keeps (HasUsed someone n) (only_match project found)
  only_match-Keeps project [] = search base_rules
  only_match-Keeps project (target ∷ []) = search base_rules
  only_match-Keeps project (target ∷ t ∷ ts) = search base_rules

  smart_target-Keeps :
      (L : AdminLibrary) (w : View) (user : ℕ) (filename : Text)
      → Keeps (HasUsed someone n) (smart_target L w user filename)
  unfolding smart_target
  smart_target-Keeps L w user filename = search (work_rules, require-Keeps, only_match-Keeps)

  canonical_caption-Keeps :
      (L : AdminLibrary) (w : View) (user : ℕ) (filename : Text) (slash : Bool) (c : Caption)
      → Keeps (HasUsed someone n) (canonical_caption L w user filename slash c)
  unfolding canonical_caption
  canonical_caption-Keeps L w user filename slash (deploy_words project) =
      search (work_rules, require-Keeps)
  canonical_caption-Keeps L w user filename slash (put_words project target) = search work_rules
  canonical_caption-Keeps L w user filename slash deploy_usage = search base_rules
  canonical_caption-Keeps L w user filename slash put_usage = search base_rules
  canonical_caption-Keeps L w user filename slash other_words = search base_rules
  canonical_caption-Keeps L w user filename slash no_words = search (base_rules, smart_target-Keeps)

  plan_of-Keeps :
      (L : AdminLibrary) (p : Policy) (w : View) (user : ℕ) (caption : Text) (document : Document)
      → Keeps (HasUsed someone n) (canonical_plan_of L p w user caption document)
  unfolding canonical_plan_of
  plan_of-Keeps L p w user caption document =
      search (work_rules, require-Keeps, file_id_of-Keeps, canonical_caption-Keeps)

  canonical_document-Keeps :
      (L : AdminLibrary) (p : Policy) (w : View) (user : ℕ) (up : Upload)
      → Keeps (HasUsed someone n) (canonical_document L p w user up)
  unfolding canonical_document canonical_plan
  canonical_document-Keeps L p w user up =
      >>=-Keeps _ _ (of_document up.document) (λ plan. return-Keeps _)
    where
      of_document :
          (o : Option Document)
          → Keeps (HasUsed someone n) (elim o as (λ _. Work Plan) [
            | none ↦ complain no_document
            | some document ↦
                canonical_plan_of L p w user (strip L.unicode.is_space up.caption) document
          ])
      of_document none = search base_rules
      of_document (some document) =
          plan_of-Keeps L p w user (strip L.unicode.is_space up.caption) document

  pub submit_upload-Keeps :
      (L : AdminLibrary) (p : Policy) (w : View) (user : ℕ) (number : Text) (up : Upload)
      → Keeps (HasUsed someone n) (submit_upload L p w user number up)
  unfolding submit_upload queue_upload
  submit_upload-Keeps L p w user number up = search (work_rules, canonical_document-Keeps)

  pub use_named-Keeps :
      (L : AdminLibrary) (w : View) (user : ℕ) (o : Option Text)
      → Keeps (HasUsed someone n) (use_named L w user o)
  use_named-Keeps L w user none = search base_rules
  use_named-Keeps L w user (some name) = search (work_rules, used-Keeps)
    where
      used-Keeps :
          (project : Text)
          → Keeps (HasUsed someone n) (
              modify {X = AdminError}
                (λ d. record d { active_project = insert user project d.active_project }))
      used-Keeps project = record { keep = λ s h. h }

  close_session-Keeps :
      (user : ℕ) → Keeps (HasUsed someone n) (modify {X = AdminError} (close_session user))
  close_session-Keeps user = record { keep = λ s h. h }

  pub lock-Keeps : (w : View) (user : ℕ) → Keeps (HasUsed someone n) (lock_session w user)
  lock-Keeps w user = search (work_rules, close_session-Keeps)

  restore_project-Keeps :
      (L : AdminLibrary) (p : Policy) (w : View) (user : ℕ) (number name release : Text)
      → Keeps (HasUsed someone n) (restore_project L p w user number name release)
  unfolding restore_project
  restore_project-Keeps L p w user number name release = search work_rules

  pub restore_words-Keeps :
      (L : AdminLibrary) (p : Policy) (w : View) (user : ℕ) (number : Text) (words : List Text)
      → Keeps (HasUsed someone n) (restore_words L p w user number words)
  restore_words-Keeps L p w user number [] = search base_rules
  restore_words-Keeps L p w user number (c ∷ []) = search base_rules
  restore_words-Keeps L p w user number (c ∷ name ∷ []) =
      restore_project-Keeps L p w user number name _
  restore_words-Keeps L p w user number (c ∷ name ∷ release ∷ []) =
      restore_project-Keeps L p w user number name release
  restore_words-Keeps L p w user number (c ∷ name ∷ release ∷ x ∷ xs) = search base_rules

  pub rollback_words-Keeps :
      (L : AdminLibrary) (p : Policy) (w : View) (user : ℕ) (number : Text) (words : List Text)
      → Keeps (HasUsed someone n) (rollback_words L p w user number words)
  unfolding rollback_words
  rollback_words-Keeps L p w user number words = search work_rules

  pub restart_words-Keeps :
      (L : AdminLibrary) (p : Policy) (w : View) (user : ℕ) (number : Text) (words : List Text)
      → Keeps (HasUsed someone n) (restart_words L p w user number words)
  unfolding restart_words
  restart_words-Keeps L p w user number words = search work_rules
