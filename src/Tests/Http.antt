-- ===== src/Tests/Http.antt =====
-- The webhooks of src/titanbox/telegram.py and the readiness probe of src/titanbox/main.py at concrete
-- inputs.
use vpsssssskjwjw.Prelude.{
  refl, Bool, true, false, ltb, some, List, [], ◌∷◌, text_dec, codes, ◌++◌, Text,
}
use vpsssssskjwjw.Prelude.Result.{ok, err}
use vpsssssskjwjw.Infrastructure.{Requirements}
use vpsssssskjwjw.Telegram.Webhooks.{Answers, HubSettings, loaded_bot}
use vpsssssskjwjw.Telegram.Webhooks.Wired.{
  IsWired, registration, watchdog, Event, after_events, events-IsWired,
}
use vpsssssskjwjw.Telegram.Specs.{
  Descriptor, Defaults, HubLibrary, integer, absent, listed, start_bots,
}
use vpsssssskjwjw.Telegram.Specs.Bounds.{IsBounded, start_bots-IsBounded}
use vpsssssskjwjw.Http.{HttpSettings, Service}
use vpsssssskjwjw.Http.Ready.{later}

abbrev hub : HubSettings
hub = record { public_base_url = codes "https://a"; auto_register_webhooks = true }

abbrev answers : Answers
answers = record {
  get_me = ok (codes "demo_bot");
  set_webhook = ok tt;
  get_webhook_info = ok (record {
    url = codes "https://a/telegram/demo";
    pending_update_count = 0;
    last_error_message = [];
  });
}

-- The webhook is found to be another one, and Telegram does not take the repair.
abbrev strange : Answers
strange = record answers {
  set_webhook = err (codes "refused");
  get_webhook_info =
      ok (record { url = codes "https://b"; pending_update_count = 3; last_error_message = [] });
}

abbrev events : List Event
events =
    registration (strange ∷ answers ∷ []) ∷ watchdog strange strange ∷ watchdog strange answers ∷ []

events-IsWired_example : IsWired hub (after_events hub events (loaded_bot hub (codes "demo")))
unfolding text_dec
events-IsWired_example = events-IsWired hub events (codes "demo") refl refl

abbrev http : HttpSettings
http = record {
  enable_runner = true;
  wake_endpoint_enabled = true;
  metrics_public = false;
  metrics_token = [];
  has_base_url = true;
}

abbrev requirements : Requirements
requirements = record {
  storage_enabled = true;
  database_enabled = false;
  durability_required = true;
  database_required = false;
}

abbrev hub_library : HubLibrary
hub_library = record {
  is_alnum = λ c. ltb 47 c;
  print = λ n. codes "1";
  clean_error = λ e. codes "error";
}

abbrev defaults : Defaults
defaults = record {
  max_inflight = 4;
  rate_per_minute = 60;
  burst = 10;
  handler_timeout_seconds = 30;
  failure_threshold = 5;
  failure_window_seconds = 60;
  failure_cooldown_seconds = 30;
}

abbrev descriptor : Descriptor
descriptor = record {
  is_object = true;
  name = codes "demo";
  token = codes "t";
  secret = codes "s";
  max_inflight = integer 8;
  rate_per_minute = absent;
  burst = absent;
  handler_timeout_seconds = absent;
  failure_threshold = absent;
  failure_window_seconds = absent;
  failure_cooldown_seconds = absent;
  allowed_updates = listed (codes "message" ∷ codes "message" ∷ codes "poll" ∷ []);
}

-- The second descriptor has too high a limit, and the third the name of the first.
abbrev descriptors : List (Descriptor × Bool)
descriptors =
    (descriptor, true)
    ∷ (record descriptor { name = codes "other"; max_inflight = integer 65 }, true)
    ∷ (descriptor, true)
    ∷ []

start_bots-IsBounded_example :
    IsBounded
      (start_bots hub_library hub defaults 1 descriptors (record { bots = []; runtime = [] }))
start_bots-IsBounded_example = start_bots-IsBounded hub_library hub defaults descriptors

-- Telegram has the webhook of the bot of that name.
abbrev answers_for : Text → Answers
answers_for name = record answers {
  get_webhook_info = ok (record {
    url = codes "https://a/telegram/" ++ name;
    pending_update_count = 0;
    last_error_message = [];
  });
}

-- The plugin of the second bot does not load.
abbrev started : List (Descriptor × Bool)
started = (descriptor, true) ∷ (record descriptor { name = codes "broken" }, false) ∷ []

abbrev history : Text → List Event
history name = registration (answers_for name ∷ []) ∷ []

abbrev service : Service
service = record {
  runner_started = true;
  configured_count = 2;
  runtime =
      later hub history
        (start_bots hub_library hub defaults 1 started
          (record { bots = []; runtime = [] })).runtime;
  startup = record {
    storage = record { enabled = true; ok = true };
    database = record { enabled = false; ok = true };
  };
}
