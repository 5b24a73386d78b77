-- ===== src/Telegram/Webhooks.antt =====
-- The registration of the webhooks in src/titanbox/telegram.py: `_register_one`, the retries of
-- `register_all_webhooks`, `_refresh_one`, `refresh_webhook_info`, a check of `_webhook_watchdog`, and
-- `all_ready`. What Telegram answers to each call is a parameter.
pub mod Wired
use vpsssssskjwjw.Prelude.{
  ℕ, Bool, true, false, ◌&&◌, ◌||◌, not, Option, none, some, List, [], ◌∷◌, ◌++◌, Text, text_eq,
  nat_eq, ◌==◌, codes, length, if◌then◌else◌,
}
use vpsssssskjwjw.Prelude.Result.{Result, ok, err}
use vpsssssskjwjw.Admin.Action.{Action, return, throw, from_result, modify, ◌>>=◌, ◌>>◌}

-- `getWebhookInfo`: a text that is missing is empty.
pub record WebhookInfo : Type 0 where
  pub url : Text
  pub pending_update_count : ℕ
  pub last_error_message : Text

-- The answers of Telegram while one bot is registered or refreshed; an error is its text as
-- `_clean_error` gives it.
pub record Answers : Type 0 where
  pub get_me : Result Text Text
  pub set_webhook : Result Text (Unit {0})
  pub get_webhook_info : Result Text WebhookInfo

-- The fields of `BotRuntimeState` that the registration reads or sets.
pub record Webhook : Type 0 where
  pub name : Text
  pub loaded : Bool
  pub ready : Bool
  pub expected_webhook_url : Option Text
  pub webhook_url : Option Text
  pub username : Option Text
  pub pending_update_count : ℕ
  pub last_webhook_error : Option Text
  pub startup_error : Option Text

pub record HubSettings : Type 0 where
  pub public_base_url : Text
  pub auto_register_webhooks : Bool

abbrev pub webhook_path : Text → Text → Text
webhook_path base name = base ++ (codes "/telegram/" ++ name)

-- What `start` makes of a bot that it has loaded.
unfoldable pub loaded_bot : HubSettings → Text → Webhook
loaded_bot h name = record {
  name = name;
  loaded = true;
  ready = not h.auto_register_webhooks;
  expected_webhook_url =
      if h.public_base_url == [] then none else some (webhook_path h.public_base_url name);
  webhook_url = none;
  username = none;
  pending_update_count = 0;
  last_webhook_error = none;
  startup_error = none;
}

abbrev pub Registration : Type 0 → Type 0
Registration A = Action Text Webhook A

-- `text or None`
abbrev pub or_none : Text → Option Text
or_none [] = none
or_none (c ∷ s) = some (c ∷ s)

abbrev pub same_url : Option Text → Option Text → Bool
same_url none none = true
same_url (some a) (some b) = a == b
same_url _ _ = false

-- What a registration and a refresh read of Telegram's answers.
abbrev pub report : Text → WebhookInfo → Webhook → Webhook
report username info s = record s {
  username = or_none username;
  webhook_url = or_none info.url;
  pending_update_count = info.pending_update_count;
  last_webhook_error = or_none info.last_error_message;
  startup_error = none;
}

abbrev pub verify_url : Text → WebhookInfo → Registration (Unit {0})
verify_url url info s =
    if info.url == url
    then (ok tt, s)
    else (err (codes "Telegram webhook verification mismatch"), s)

abbrev pub register_at : Answers → Text → Registration (Unit {0})
register_at a url = from_result a.get_me >>= λ username.
    from_result a.set_webhook
    >> (from_result a.get_webhook_info >>= λ info.
        (verify_url url info >> modify (λ s. record (report username info s) { ready = true })))

unfoldable pub register_one : HubSettings → Answers → Registration (Unit {0})
register_one h a s =
    if h.public_base_url == []
    then (err (codes "No public base URL is available"), s)
    else register_at a (webhook_path h.public_base_url s.name) s

abbrev pub noting : Result Text (Unit {0}) × Webhook → Bool × Webhook
noting (ok done, s) = (true, s)
noting (err e, s) = (false, record s { startup_error = some e })

abbrev pub unless_done : (Webhook → Webhook) → Bool × Webhook → Webhook
unless_done f (true, s) = s
unless_done f (false, s) = f s

-- The attempts of `register_all_webhooks`, each with Telegram's answers, until one succeeds.
unfoldable pub attempt_all : HubSettings → List Answers → Webhook → Webhook
attempt_all h [] s = s
attempt_all h (a ∷ as') s = unless_done (attempt_all h as') (noting (register_one h a s))

unfoldable pub register_bot : HubSettings → List Answers → Webhook → Webhook
register_bot h attempts s = attempt_all h attempts (record s { ready = false })

abbrev pub refreshed : HubSettings → Text → WebhookInfo → Webhook → Webhook
refreshed h username info s = record (report username info s) {
  ready =
      s.loaded
      && (not h.auto_register_webhooks || same_url (or_none info.url) s.expected_webhook_url);
}

unfoldable pub refresh_one : HubSettings → Answers → Registration (Unit {0})
refresh_one h a = from_result a.get_me >>= λ username.
    (from_result a.get_webhook_info >>= λ info. modify (refreshed h username info))

-- The `except` clauses of the refresh and of the watchdog.
abbrev pub or_unready : Result Text (Unit {0}) × Webhook → Webhook
or_unready (ok done, s) = s
or_unready (err e, s) = record s { startup_error = some e; ready = false }

unfoldable pub refresh_webhook_info : HubSettings → Answers → Webhook → Webhook
refresh_webhook_info h a s = or_unready (refresh_one h a s)

unfoldable pub repair : HubSettings → Answers → Registration (Unit {0})
repair h a s =
    if same_url s.webhook_url s.expected_webhook_url then (ok tt, s) else register_one h a s

-- A check of the watchdog, with the answers to the refresh and to the repair.
unfoldable pub watch : HubSettings → Answers → Answers → Webhook → Webhook
watch h a b s = or_unready ((refresh_one h a >> repair h b) s)

abbrev pub all_of : List Webhook → Bool
all_of [] = true
all_of (s ∷ ss) = s.ready && all_of ss

-- `all_ready`
unfoldable pub all_ready : ℕ → List Webhook → Bool
all_ready configured_count runtime =
    if configured_count == 0
    then true
    else if not (length runtime == configured_count)
    then false
    else all_of runtime
