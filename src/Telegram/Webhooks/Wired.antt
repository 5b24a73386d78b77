-- ===== src/Telegram/Webhooks/Wired.antt =====
-- A bot that counts as ready has its own webhook, in src/titanbox/telegram.py.
use vpsssssskjwjw.Prelude.{
  ◌≡◌, refl, Bool, true, false, Option, none, some, List, [], ◌∷◌, Text, text_eq, nat_eq, ◌==◌,
  Bool-cases, inl, inr, arith,
}
use vpsssssskjwjw.Prelude.Result.{Result, ok, err}
use vpsssssskjwjw.Admin.Action.{Keeps, modify, ◌>>=◌, >>=-Keeps, keep_rules}
use vpsssssskjwjw.Telegram.Webhooks.{
  Answers, WebhookInfo, Webhook, HubSettings, register_one, register_at, webhook_path, or_none,
  same_url, attempt_all, register_bot, refreshed, refresh_one, or_unready, refresh_webhook_info,
  repair, watch, loaded_bot, noting, unless_done,
}

-- The bot is to be reached at its own path, and is, if it counts as ready.
pub record IsWired (h : HubSettings) (s : Webhook) : Type 0 where
  pub expected : s.expected_webhook_url ≡ some (webhook_path h.public_base_url s.name)
  pub wired : s.ready ≡ true → s.webhook_url ≡ s.expected_webhook_url

or_none-webhook_path :
    (base name : Text) → or_none (webhook_path base name) ≡ some (webhook_path base name)
or_none-webhook_path [] name = refl
or_none-webhook_path (c ∷ base) name = refl

module _ (h : HubSettings) (auto : h.auto_register_webhooks ≡ true) where
  register_at-keep :
      (me : Result Text Text) (set : Result Text (Unit {0})) (info : Result Text WebhookInfo)
      (s : Webhook)
      → IsWired h s
      → IsWired h
          (register_at
            (record { get_me = me; set_webhook = set; get_webhook_info = info })
            (webhook_path h.public_base_url s.name)
            s).1
  unfolding ◌>>=◌
  register_at-keep (err e) set info s w = w
  register_at-keep (ok me) (err e) info s w = w
  register_at-keep (ok me) (ok done) (err e) s w = w
  register_at-keep (ok me) (ok done) (ok info) s w =
      elim (Bool-cases (info.url == webhook_path h.public_base_url s.name)) [
        | inr b ↦ simp (b) w
        | inl b ↦ simp (b) (record {
          expected = w.expected;
          wired = λ r. ground (arith, b, w.expected, or_none-webhook_path h.public_base_url s.name);
        })
      ]

  register_one-IsWired :
      (a : Answers) (s : Webhook) → IsWired h s → IsWired h (register_one h a s).1
  unfolding register_one
  register_one-IsWired a s w = elim (Bool-cases (h.public_base_url == [])) [
    | inl b ↦ simp (b) w
    | inr b ↦ simp (b) (register_at-keep a.get_me a.set_webhook a.get_webhook_info s w)
  ]

  same_url_sound : (a b : Option Text) → same_url a b ≡ true → a ≡ b
  same_url_sound none none e = refl
  same_url_sound (some a) (some b) e = ground (arith, e)
  same_url_sound none (some b) e = absurd (cc e)
  same_url_sound (some a) none e = absurd (cc e)

  refreshed-IsWired :
      (username : Text) (info : WebhookInfo) (s : Webhook)
      → IsWired h s
      → IsWired h (refreshed h username info s)
  refreshed-IsWired username info s w = record {
    expected = w.expected;
    wired = λ r. same_url_sound (or_none info.url) s.expected_webhook_url (ground (arith, auto, r));
  }

  unready-IsWired :
      (o : Result Text (Unit {0}) × Webhook) → IsWired h o.1 → IsWired h (or_unready o)
  unready-IsWired (ok done, s) w = w
  unready-IsWired (err e, s) w = record { expected = w.expected; wired = λ r. absurd (cc r) }

  noting-IsWired : (o : Result Text (Unit {0}) × Webhook) → IsWired h o.1 → IsWired h (noting o).1
  noting-IsWired (ok done, s) w = w
  noting-IsWired (err e, s) w = record { expected = w.expected; wired = w.wired }

  unless_done-IsWired :
      (f : Webhook → Webhook) (o : Bool × Webhook)
      → ((t : Webhook) → IsWired h t → IsWired h (f t))
      → IsWired h o.1
      → IsWired h (unless_done f o)
  unless_done-IsWired f (true, t) k w = w
  unless_done-IsWired f (false, t) k w = k t w

  attempt_all-IsWired :
      (as' : List Answers) (s : Webhook) → IsWired h s → IsWired h (attempt_all h as' s)
  unfolding attempt_all
  attempt_all-IsWired [] s w = w
  attempt_all-IsWired (a ∷ as') s w =
      unless_done-IsWired (attempt_all h as') (noting (register_one h a s))
        (λ t v. attempt_all-IsWired as' t v) (noting-IsWired _ (register_one-IsWired a s w))

  refreshed-Keeps :
      (username : Text) (info : WebhookInfo)
      → Keeps (IsWired h) (modify {X = Text} (refreshed h username info))
  refreshed-Keeps username info = record { keep = refreshed-IsWired username info }

  refresh_one-Keeps : (a : Answers) → Keeps (IsWired h) (refresh_one h a)
  unfolding refresh_one
  refresh_one-Keeps a = search (keep_rules, refreshed-Keeps)

  repair-Keeps : (a : Answers) → Keeps (IsWired h) (repair h a)
  unfolding repair
  repair-Keeps a = record {
    keep = λ s w. elim (Bool-cases (same_url s.webhook_url s.expected_webhook_url)) [
      | inl e ↦ simp (e) w
      | inr e ↦ simp (e) (register_one-IsWired a s w)
    ];
  }

-- What may happen to the registration of a bot.
pub data Event : Type 0 where
  registration : List Answers → Event
  refresh : Answers → Event
  watchdog : Answers → Answers → Event

unfoldable pub after_event : HubSettings → Event → Webhook → Webhook
after_event h (registration attempts) s = register_bot h attempts s
after_event h (refresh a) s = refresh_webhook_info h a s
after_event h (watchdog a b) s = watch h a b s

unfoldable pub after_events : HubSettings → List Event → Webhook → Webhook
after_events h [] s = s
after_events h (e ∷ es) s = after_events h es (after_event h e s)

pub event-IsWired :
    (h : HubSettings) (e : Event) (s : Webhook)
    → h.auto_register_webhooks ≡ true
    → IsWired h s
    → IsWired h (after_event h e s)
unfolding after_event register_bot refresh_webhook_info watch
event-IsWired h (registration attempts) s auto w =
    attempt_all-IsWired h auto attempts _
      (record { expected = w.expected; wired = λ r. absurd (cc r) })
event-IsWired h (refresh a) s auto w =
    unready-IsWired h auto _ ((refresh_one-Keeps h auto a).keep s w)
event-IsWired h (watchdog a b) s auto w = unready-IsWired h auto _ (
    (>>=-Keeps (refresh_one h a) (λ u. repair h b) (refresh_one-Keeps h auto a)
        (λ u. repair-Keeps h auto b)).keep
      s w)

events-keep :
    (h : HubSettings) (es : List Event) (s : Webhook)
    → h.auto_register_webhooks ≡ true
    → IsWired h s
    → IsWired h (after_events h es s)
unfolding after_events
events-keep h [] s auto w = w
events-keep h (e ∷ es) s auto w = events-keep h es _ auto (event-IsWired h e s auto w)

-- Where the program registers the webhooks and knows its address, a bot that has been loaded has the
-- webhook at its own path whenever it counts as ready, after any registrations, refreshes and
-- checks of the watchdog, whatever Telegram answers to each of their calls.
pub events-IsWired :
    (h : HubSettings) (es : List Event) (name : Text)
    → h.auto_register_webhooks ≡ true
    → (h.public_base_url == []) ≡ false
    → IsWired h (after_events h es (loaded_bot h name))
unfolding loaded_bot
events-IsWired h es name auto base =
    events-keep h es (loaded_bot h name) auto
      (record { expected = ground (arith, base); wired = λ r. absurd (ground (arith, auto, r)) })
