-- ===== src/Telegram/Specs.antt =====
-- The descriptors of the bots in src/titanbox/telegram.py: `_safe_bot_name`, `_limit_value`,
-- `_allowed_updates`, and what `start` does with each descriptor in turn. The environment is read off
-- beforehand: a descriptor has the token and the webhook secret that `start` finds for it. Whether a
-- plugin loads, binds and starts is a parameter.
pub mod Bounds
pub mod Started
use vpsssssskjwjw.Prelude.{
  ℕ, ◌+◌, Bool, true, false, ◌&&◌, ◌||◌, not, Option, none, some, List, [], ◌∷◌, ◌++◌, Text,
  text_eq, nat_eq, ◌==◌, codes, contains, ltb, leb, length, if◌then◌else◌,
}
use vpsssssskjwjw.Prelude.Dict.{Dict, lookup, insert}
use vpsssssskjwjw.Prelude.Result.{Result, ok, err, ◌>>=◌, ◌>>◌, guard}
use vpsssssskjwjw.Telegram.Webhooks.{Webhook, HubSettings, loaded_bot}

-- A value of a descriptor: missing, an integer from 0 on, a negative one, or no integer.
pub data Raw : Type 0 where
  absent negative malformed : Raw
  integer : ℕ → Raw

-- `allowed_updates`: missing, no list, or the list of its texts, stripped.
pub data RawUpdates : Type 0 where
  default_updates no_list : RawUpdates
  listed : List Text → RawUpdates

pub record Descriptor : Type 0 where
  pub is_object : Bool
  pub name : Text
  pub token : Text
  pub secret : Text
  pub max_inflight : Raw
  pub rate_per_minute : Raw
  pub burst : Raw
  pub handler_timeout_seconds : Raw
  pub failure_threshold : Raw
  pub failure_window_seconds : Raw
  pub failure_cooldown_seconds : Raw
  pub allowed_updates : RawUpdates

-- The limits of a bot that names none.
pub record Defaults : Type 0 where
  pub max_inflight : ℕ
  pub rate_per_minute : ℕ
  pub burst : ℕ
  pub handler_timeout_seconds : ℕ
  pub failure_threshold : ℕ
  pub failure_window_seconds : ℕ
  pub failure_cooldown_seconds : ℕ

pub data BotError : Type 0 where
  no_object invalid_name missing_token invalid_secret duplicate_name : BotError
  not_an_integer out_of_range invalid_updates unsupported_update plugin_failed : BotError

pub record BotSpec : Type 0 where
  pub name : Text
  pub max_inflight : ℕ
  pub rate_per_minute : ℕ
  pub burst : ℕ
  pub handler_timeout_seconds : ℕ
  pub failure_threshold : ℕ
  pub failure_window_seconds : ℕ
  pub failure_cooldown_seconds : ℕ
  pub allowed_updates : List Text

abbrev pub within : ℕ → ℕ → ℕ → Result BotError ℕ
within minimum maximum n = if ltb n minimum || ltb maximum n then err out_of_range else ok n

unfoldable pub limit_value : Raw → ℕ → ℕ → ℕ → Result BotError ℕ
limit_value absent default minimum maximum = within minimum maximum default
limit_value negative default minimum maximum = err out_of_range
limit_value malformed default minimum maximum = err not_an_integer
limit_value (integer n) default minimum maximum = within minimum maximum n

abbrev pub allowed_names : List Text
allowed_names =
    codes "message"
    ∷ codes "edited_message"
    ∷ codes "channel_post"
    ∷ codes "edited_channel_post"
    ∷ codes "business_connection"
    ∷ codes "business_message"
    ∷ codes "edited_business_message"
    ∷ codes "deleted_business_messages"
    ∷ codes "message_reaction"
    ∷ codes "message_reaction_count"
    ∷ codes "inline_query"
    ∷ codes "chosen_inline_result"
    ∷ codes "callback_query"
    ∷ codes "shipping_query"
    ∷ codes "pre_checkout_query"
    ∷ codes "purchased_paid_media"
    ∷ codes "poll"
    ∷ codes "poll_answer"
    ∷ codes "my_chat_member"
    ∷ codes "chat_member"
    ∷ codes "chat_join_request"
    ∷ codes "chat_boost"
    ∷ codes "removed_chat_boost"
    ∷ []

-- The loop of `_allowed_updates`; `result` is what has been taken.
unfoldable pub take_updates : List Text → List Text → Result BotError (List Text)
take_updates result [] = ok result
take_updates result (name ∷ names) = do
  guard (contains allowed_names name) unsupported_update
  take_updates (if contains result name then result else result ++ (name ∷ [])) names

abbrev pub is_short : List Text → Bool
is_short [] = false
is_short (name ∷ names) = leb (length (name ∷ names)) (length allowed_names)

unfoldable pub allowed_updates_of : RawUpdates → Result BotError (List Text)
allowed_updates_of default_updates = take_updates [] (codes "message" ∷ codes "callback_query" ∷ [])
allowed_updates_of no_list = err invalid_updates
allowed_updates_of (listed names) = guard (is_short names) invalid_updates >> take_updates [] names

-- What Python says of a character, how a number is printed, and `_clean_error`.
pub record HubLibrary : Type 0 where
  pub is_alnum : ℕ → Bool
  pub print : ℕ → Text
  pub clean_error : BotError → Text

abbrev pub is_url_safe : ℕ → Bool
is_url_safe c =
    (leb 48 c && leb c 57)
    || ((leb 65 c && leb c 90) || ((leb 97 c && leb c 122) || (c == 95 || c == 45)))

abbrev pub all_are : (ℕ → Bool) → Text → Bool
all_are p [] = true
all_are p (c ∷ s) = p c && all_are p s

-- `name.replace("-", "").replace("_", "")`
unfoldable pub drop_joins : Text → Text
drop_joins [] = []
drop_joins (c ∷ s) = let rest = drop_joins s in if c == 45 || c == 95 then rest else c ∷ rest

-- `str.isalnum`
abbrev pub isalnum : (ℕ → Bool) → Text → Bool
isalnum p [] = false
isalnum p (c ∷ s) = all_are p (c ∷ s)

unfoldable pub is_safe_bot_name : HubLibrary → Text → Bool
is_safe_bot_name L name =
    not (name == []) && (leb (length name) 48 && isalnum L.is_alnum (drop_joins name))

-- The bots that are set up, and the state of each that has been looked at.
pub record Registry : Type 0 where
  pub bots : Dict Text BotSpec
  pub runtime : Dict Text Webhook

abbrev pub is_known : Option BotSpec → Bool
is_known none = false
is_known (some spec) = true

unfoldable pub limits_of : Defaults → Descriptor → Result BotError BotSpec
limits_of f d = do
  max_inflight ← limit_value d.max_inflight f.max_inflight 1 64
  rate_per_minute ← limit_value d.rate_per_minute f.rate_per_minute 10 100000
  burst ← limit_value d.burst f.burst 1 5000
  handler_timeout_seconds ← limit_value d.handler_timeout_seconds f.handler_timeout_seconds 1 120
  failure_threshold ← limit_value d.failure_threshold f.failure_threshold 2 100
  failure_window_seconds ← limit_value d.failure_window_seconds f.failure_window_seconds 10 3600
  failure_cooldown_seconds ←
      limit_value d.failure_cooldown_seconds f.failure_cooldown_seconds 5 3600
  allowed_updates ← allowed_updates_of d.allowed_updates
  ok (record {
    name = d.name;
    max_inflight = max_inflight;
    rate_per_minute = rate_per_minute;
    burst = burst;
    handler_timeout_seconds = handler_timeout_seconds;
    failure_threshold = failure_threshold;
    failure_window_seconds = failure_window_seconds;
    failure_cooldown_seconds = failure_cooldown_seconds;
    allowed_updates = allowed_updates;
  })

-- The checks of a descriptor with a valid name, up to its `BotSpec`.
unfoldable pub spec_of : Defaults → Descriptor → Registry → Result BotError BotSpec
spec_of f d r = do
  guard (not (d.token == [])) missing_token
  guard (leb (length d.secret) 256 && all_are is_url_safe d.secret) invalid_secret
  guard (not (is_known (lookup d.name r.bots))) duplicate_name
  limits_of f d

-- `BotRuntimeState(name=…, plugin=…)`
abbrev pub fresh_bot : Text → Webhook
fresh_bot name = record {
  name = name;
  loaded = false;
  ready = false;
  expected_webhook_url = none;
  webhook_url = none;
  username = none;
  pending_update_count = 0;
  last_webhook_error = none;
  startup_error = none;
}

abbrev pub or_fresh : Text → Option Webhook → Webhook
or_fresh name none = fresh_bot name
or_fresh name (some s) = s

-- The `except` clause.
unfoldable pub note_error : HubLibrary → Text → BotError → Registry → Registry
note_error L name e r = record r {
  runtime =
      insert name
        (record (or_fresh name (lookup name r.runtime)) { startup_error = some (L.clean_error e) })
        r.runtime;
}

-- A bot's own limits are kept before its plugin is loaded, and stay if that fails.
abbrev pub load_plugin : HubLibrary → HubSettings → Bool → Text → Registry → Registry
load_plugin L h true name r = record r { runtime = insert name (loaded_bot h name) r.runtime }
load_plugin L h false name r = note_error L name plugin_failed r

abbrev pub set_up :
    HubLibrary → HubSettings → Bool → Text → Registry → Result BotError BotSpec → Registry
set_up L h loads name r (err e) = note_error L name e r
set_up L h loads name r (ok spec) =
    load_plugin L h loads name (record r { bots = insert name spec r.bots })

-- One round of the loop of `start`, where `loads` is whether the plugin loads, binds and starts.
unfoldable pub start_bot :
    HubLibrary → HubSettings → Defaults → ℕ → Descriptor → Bool → Registry → Registry
start_bot L h f number d loads r =
    if not d.is_object
    then note_error L (codes "invalid-" ++ L.print number) no_object r
    else if not (is_safe_bot_name L d.name)
    then note_error L (codes "invalid-" ++ L.print number) invalid_name r
    else let seen : Registry = record r { runtime = insert d.name (fresh_bot d.name) r.runtime } in
      set_up L h loads d.name seen (spec_of f d seen)

-- The loop, from the descriptor of that number on.
unfoldable pub start_bots :
    HubLibrary → HubSettings → Defaults → ℕ → List (Descriptor × Bool) → Registry → Registry
start_bots L h f number [] r = r
start_bots L h f number ((d, loads) ∷ ds) r =
    start_bots L h f (number + 1) ds (start_bot L h f number d loads r)
