-- ===== src/Http/Ready.antt =====
-- What an answer 200 of `/readyz` in src/titanbox/main.py means.
use vpsssssskjwjw.Prelude.{
  ◌≡◌, Bool, true, ◌||◌, not, some, List, [], ◌∷◌, Text, text_eq, nat_eq, length, All, ◌⊎◌,
}
use vpsssssskjwjw.Prelude.Dict.{Dict}
use vpsssssskjwjw.Infrastructure.{Requirements}
use vpsssssskjwjw.Telegram.Webhooks.{Webhook, HubSettings, webhook_path}
use vpsssssskjwjw.Telegram.Webhooks.Wired.{Event, after_events}
use vpsssssskjwjw.Telegram.Specs.{Descriptor, Defaults, HubLibrary, start_bots}
use vpsssssskjwjw.Http.{HttpSettings, Service}

-- The states of the bots after what happened to the registration of each.
abbrev pub later : HubSettings → (Text → List Event) → Dict Text Webhook → List Webhook
later hub events [] = []
later hub events ((name, s) ∷ d) = after_events hub (events name) s ∷ later hub events d

-- The hub was started from the descriptors, each with whether its plugin loads, and then these events
-- happened to the bots.
pub record HasRun (L : HubLibrary) (hub : HubSettings) (f : Defaults)
    (descriptors : List (Descriptor × Bool)) (events : Text → List Event) (s : Service)
    : Type 0 where
  pub count : s.configured_count ≡ length descriptors
  pub bots :
      s.runtime
      ≡ later hub events
          (start_bots L hub f 1 descriptors (record { bots = []; runtime = [] })).runtime

-- A bot whose plugin is loaded has the webhook at its own path.
abbrev pub HasWebhook : HubSettings → Webhook → Type 0
HasWebhook hub s = s.loaded ≡ true → s.webhook_url ≡ some (webhook_path hub.public_base_url s.name)

-- The runner runs if it is to, each bot that is configured is there and has its webhook if its plugin
-- is loaded, and what is required of the storage and the database was found to be fine.
pub record IsServing (hub : HubSettings) (h : HttpSettings) (q : Requirements) (s : Service)
    : Type 0 where
  pub runner : (not h.enable_runner || s.runner_started) ≡ true
  pub bots :
      (s.configured_count ≡ 0)
      ⊎ ((length s.runtime ≡ s.configured_count) × All (HasWebhook hub) s.runtime)
  pub storage : (not q.durability_required || s.startup.storage.ok) ≡ true
  pub database : (not q.database_required || s.startup.database.ok) ≡ true
