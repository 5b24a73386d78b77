-- ===== src/Telegram/Specs/Started.antt =====
-- The webhooks of the bots that `start` of src/titanbox/telegram.py leaves, and what becomes of them
-- over registrations, refreshes and checks of the watchdog.
use vpsssssskjwjw.Prelude.{
  ℕ, ◌+◌, ◌≡◌, ◌∙◌, refl, sym, Bool, true, false, some, List, [], ◌∷◌, ◌++◌, Text, text_eq, nat_eq,
  ◌==◌, codes, All, Bool-cases, inl, inr, arith,
}
use vpsssssskjwjw.Prelude.Dict.{Dict, lookup, insert}
use vpsssssskjwjw.Prelude.Result.{Result, ok, err}
use vpsssssskjwjw.Admin.Action.{◌>>=◌, ◌>>◌, resume}
use vpsssssskjwjw.Telegram.Webhooks.{
  Answers, Webhook, HubSettings, register_one, attempt_all, register_bot, refresh_one,
  refresh_webhook_info, repair, watch, loaded_bot, noting, unless_done, or_unready,
}
use vpsssssskjwjw.Telegram.Webhooks.Wired.{
  IsWired, Event, registration, refresh, watchdog, after_event, after_events, event-IsWired,
}
use vpsssssskjwjw.Telegram.Specs.{
  Descriptor, Defaults, BotError, BotSpec, HubLibrary, Registry, no_object, invalid_name,
  plugin_failed, fresh_bot, or_fresh, note_error, load_plugin, set_up, is_safe_bot_name, spec_of,
  start_bot, start_bots,
}

-- Once its plugin is loaded, the bot is to be reached at its own path, and is, if it counts as ready.
abbrev pub IsHonest : HubSettings → Webhook → Type 0
IsHonest h s = s.loaded ≡ true → IsWired h s

module _ (h : HubSettings) where
  register_one-loaded : (a : Answers) (s : Webhook) → (register_one h a s).1.loaded ≡ s.loaded
  unfolding register_one ◌>>=◌
  register_one-loaded a s = ground arith

  noting-loaded : (o : Result Text (Unit {0}) × Webhook) → (noting o).1.loaded ≡ o.1.loaded
  noting-loaded (ok u, s) = refl
  noting-loaded (err e, s) = refl

  or_unready-loaded : (o : Result Text (Unit {0}) × Webhook) → (or_unready o).loaded ≡ o.1.loaded
  or_unready-loaded (ok u, s) = refl
  or_unready-loaded (err e, s) = refl

  unless_done-loaded :
      (f : Webhook → Webhook) (o : Bool × Webhook)
      → ((t : Webhook) → (f t).loaded ≡ t.loaded)
      → (unless_done f o).loaded ≡ o.1.loaded
  unless_done-loaded f (true, t) k = refl
  unless_done-loaded f (false, t) k = k t

  attempt_all-loaded :
      (attempts : List Answers) (s : Webhook) → (attempt_all h attempts s).loaded ≡ s.loaded
  unfolding attempt_all
  attempt_all-loaded [] s = refl
  attempt_all-loaded (a ∷ attempts) s =
      unless_done-loaded (attempt_all h attempts) (noting (register_one h a s))
        (attempt_all-loaded attempts)
      ∙ noting-loaded (register_one h a s)
      ∙ register_one-loaded a s

  refresh_one-loaded : (a : Answers) (s : Webhook) → (refresh_one h a s).1.loaded ≡ s.loaded
  unfolding refresh_one ◌>>=◌
  refresh_one-loaded a s = ground arith

  repair-loaded : (a : Answers) (s : Webhook) → (repair h a s).1.loaded ≡ s.loaded
  unfolding repair
  repair-loaded a s = ground (arith, register_one-loaded a s)

  -- Nothing that happens to a registration loads a plugin.
  event-loaded : (e : Event) (s : Webhook) → (after_event h e s).loaded ≡ s.loaded
  unfolding after_event register_bot refresh_webhook_info watch ◌>>=◌
  event-loaded (registration attempts) s = attempt_all-loaded attempts (record s { ready = false })
  event-loaded (refresh a) s = or_unready-loaded (refresh_one h a s) ∙ refresh_one-loaded a s
  event-loaded (watchdog a b) s =
      or_unready-loaded ((refresh_one h a >> repair h b) s)
      ∙ then-loaded (refresh_one h a s)
      ∙ refresh_one-loaded a s
    where
      then-loaded :
          (o : Result Text (Unit {0}) × Webhook)
          → (resume (λ u. repair h b) o).1.loaded ≡ o.1.loaded
      then-loaded (ok u, t) = repair-loaded b t
      then-loaded (err e, t) = refl

module _ (h : HubSettings) (auto : h.auto_register_webhooks ≡ true) where
  pub events-IsHonest :
      (es : List Event) (s : Webhook) → IsHonest h s → IsHonest h (after_events h es s)
  unfolding after_events
  events-IsHonest [] s k = k
  events-IsHonest (e ∷ es) s k =
      events-IsHonest es (after_event h e s)
        (λ l. event-IsWired h e s auto (k (sym (event-loaded h e s) ∙ l)))

abbrev pub values : Dict Text Webhook → List Webhook
values [] = []
values ((name, s) ∷ d) = s ∷ values d

insert-All :
    (P : Webhook → Type 0) (name : Text) (s : Webhook) (d : Dict Text Webhook)
    → P s
    → All P (values d)
    → All P (values (insert name s d))
unfolding insert
insert-All P name s [] p a = (p, tt)
insert-All P name s ((n, t) ∷ d) p a = elim (Bool-cases (name == n)) [
  | inl e ↦ rw e (p, a.1)
  | inr e ↦ rw e (a.0, insert-All P name s d p a.1)
]

lookup-All :
    (P : Webhook → Type 0) (name : Text) (d : Dict Text Webhook)
    → P (fresh_bot name)
    → All P (values d)
    → P (or_fresh name (lookup name d))
unfolding lookup
lookup-All P name [] p a = p
lookup-All P name ((n, t) ∷ d) p a = elim (Bool-cases (name == n)) [
  | inl e ↦ rw e (a.0)
  | inr e ↦ rw e (lookup-All P name d p a.1)
]

module _ (L : HubLibrary) (h : HubSettings) (auto : h.auto_register_webhooks ≡ true)
    (base : (h.public_base_url == []) ≡ false) where
  fresh-IsHonest : (name : Text) → IsHonest h (fresh_bot name)
  fresh-IsHonest name l = absurd (cc l)

  loaded-IsHonest : (name : Text) → IsHonest h (loaded_bot h name)
  unfolding loaded_bot
  loaded-IsHonest name l = record {
    expected = ground (arith, base);
    wired = λ r. absurd (ground (arith, auto, r));
  }

  noted-IsHonest :
      (error : Text) (s : Webhook)
      → IsHonest h s
      → IsHonest h (record s { startup_error = some error })
  noted-IsHonest error s k l = record { expected = (k l).expected; wired = (k l).wired }

  note_error-IsHonest :
      (name : Text) (e : BotError) (r : Registry)
      → All (IsHonest h) (values r.runtime)
      → All (IsHonest h) (values (note_error L name e r).runtime)
  unfolding note_error
  note_error-IsHonest name e r a =
      insert-All (IsHonest h) name _ r.runtime
        (noted-IsHonest (L.clean_error e) (or_fresh name (lookup name r.runtime))
          (lookup-All (IsHonest h) name r.runtime (fresh-IsHonest name) a))
        a

  load_plugin-IsHonest :
      (loads : Bool) (name : Text) (r : Registry)
      → All (IsHonest h) (values r.runtime)
      → All (IsHonest h) (values (load_plugin L h loads name r).runtime)
  load_plugin-IsHonest true name r a =
      insert-All (IsHonest h) name (loaded_bot h name) r.runtime (loaded-IsHonest name) a
  load_plugin-IsHonest false name r a = note_error-IsHonest name plugin_failed r a

  set_up-IsHonest :
      (loads : Bool) (name : Text) (r : Registry) (o : Result BotError BotSpec)
      → All (IsHonest h) (values r.runtime)
      → All (IsHonest h) (values (set_up L h loads name r o).runtime)
  set_up-IsHonest loads name r (err e) a = note_error-IsHonest name e r a
  set_up-IsHonest loads name r (ok spec) a =
      load_plugin-IsHonest loads name (record r { bots = insert name spec r.bots }) a

  start_bot-IsHonest :
      (f : Defaults) (number : ℕ) (d : Descriptor) (loads : Bool) (r : Registry)
      → All (IsHonest h) (values r.runtime)
      → All (IsHonest h) (values (start_bot L h f number d loads r).runtime)
  unfolding start_bot
  start_bot-IsHonest f number d loads r a = elim (Bool-cases d.is_object) [
    | inr o ↦ simp (o) (note_error-IsHonest (codes "invalid-" ++ L.print number) no_object r a)
    | inl o ↦ elim (Bool-cases (is_safe_bot_name L d.name)) [
      | inr n ↦
          simp (o, n) (note_error-IsHonest (codes "invalid-" ++ L.print number) invalid_name r a)
      | inl n ↦
          let seen : Registry = record r { runtime = insert d.name (fresh_bot d.name) r.runtime } in
          simp (o, n)
            (set_up-IsHonest loads d.name seen (spec_of f d seen) (
              insert-All (IsHonest h) d.name (fresh_bot d.name) r.runtime (fresh-IsHonest d.name)
                a))
    ]
  ]

  pub start_bots-IsHonest :
      (f : Defaults) (number : ℕ) (ds : List (Descriptor × Bool)) (r : Registry)
      → All (IsHonest h) (values r.runtime)
      → All (IsHonest h) (values (start_bots L h f number ds r).runtime)
  unfolding start_bots
  start_bots-IsHonest f number [] r a = a
  start_bots-IsHonest f number ((d, loads) ∷ ds) r a =
      start_bots-IsHonest f (number + 1) ds _ (start_bot-IsHonest f number d loads r a)
