-- ===== src/Telegram/Specs/Bounds.antt =====
-- The limits of the bots that src/titanbox/telegram.py sets up.
use vpsssssskjwjw.Prelude.{
  ℕ, ◌+◌, ◌≤◌, ◌≡◌, refl, sym, Bool, true, false, ◌&&◌, not, List, [], ◌∷◌, ◌++◌, Text, text_eq,
  nat_eq, ◌==◌, contains, leb, length, All, if◌then◌else◌, Bool-cases, inl, inr, arith,
}
use vpsssssskjwjw.Prelude.Dict.{Dict, lookup, insert}
use vpsssssskjwjw.Prelude.Result.{Result, ok, err, ◌>>=◌, guard}
use vpsssssskjwjw.Telegram.Webhooks.{HubSettings}
use vpsssssskjwjw.Telegram.Specs.{
  Raw, absent, negative, malformed, integer, RawUpdates, default_updates, no_list, listed,
  Descriptor, Defaults, BotError, BotSpec, within, limit_value, allowed_names, take_updates,
  is_short, allowed_updates_of, HubLibrary, Registry, missing_token, invalid_secret, duplicate_name,
  all_are, is_url_safe, is_known, is_safe_bot_name, limits_of, spec_of, note_error, load_plugin,
  set_up, start_bot, start_bots,
}

-- The limits of a bot are within the bounds of the program, and what it is to receive is of the kinds
-- that Telegram has.
pub record IsSpec (s : BotSpec) : Type 0 where
  pub inflight : (1 ≤ s.max_inflight) × (s.max_inflight ≤ 64)
  pub rate : (10 ≤ s.rate_per_minute) × (s.rate_per_minute ≤ 100000)
  pub burst : (1 ≤ s.burst) × (s.burst ≤ 5000)
  pub timeout : (1 ≤ s.handler_timeout_seconds) × (s.handler_timeout_seconds ≤ 120)
  pub threshold : (2 ≤ s.failure_threshold) × (s.failure_threshold ≤ 100)
  pub window : (10 ≤ s.failure_window_seconds) × (s.failure_window_seconds ≤ 3600)
  pub cooldown : (5 ≤ s.failure_cooldown_seconds) × (s.failure_cooldown_seconds ≤ 3600)
  pub updates : All (λ name. contains allowed_names name ≡ true) s.allowed_updates

within_bounds :
    (minimum maximum n k : ℕ) → within minimum maximum n ≡ ok k → (minimum ≤ k) × (k ≤ maximum)
within_bounds minimum maximum n k h = (ground (arith, h), ground (arith, h))

limit_value_bounds :
    (raw : Raw) (default minimum maximum k : ℕ)
    → limit_value raw default minimum maximum ≡ ok k
    → (minimum ≤ k) × (k ≤ maximum)
unfolding limit_value
limit_value_bounds absent default minimum maximum k h = within_bounds minimum maximum default k h
limit_value_bounds negative default minimum maximum k h = absurd (cc h)
limit_value_bounds malformed default minimum maximum k h = absurd (cc h)
limit_value_bounds (integer n) default minimum maximum k h = within_bounds minimum maximum n k h

abbrev IsKind : Text → Type 0
IsKind name = contains allowed_names name ≡ true

All-append :
    (names : List Text) (name : Text)
    → All IsKind names
    → IsKind name
    → All IsKind (names ++ (name ∷ []))
All-append [] name a k = (k, tt)
All-append (n ∷ names) name a k = (a.0, All-append names name a.1 k)

taken-kinds :
    (b : Bool) (result : List Text) (name : Text)
    → All IsKind result
    → IsKind name
    → All IsKind (if b then result else result ++ (name ∷ []))
taken-kinds true result name a k = a
taken-kinds false result name a k = All-append result name a k

bind_ok :
    {A B : Type 0} (m : Result BotError A) (f : A → Result BotError B) (b : B)
    → (m >>= f) ≡ ok b
    → (a : A) × (m ≡ ok a) × (f a ≡ ok b)
bind_ok (err e) f b h = absurd (cc h)
bind_ok (ok a) f b h = (a, refl, h)

guard_ok : (b : Bool) (e : BotError) (u : Unit {0}) → guard b e ≡ ok u → b ≡ true
guard_ok true e u h = refl
guard_ok false e u h = absurd (cc h)

take_updates-kinds :
    (names result taken : List Text)
    → All IsKind result
    → take_updates result names ≡ ok taken
    → All IsKind taken
unfolding take_updates
take_updates-kinds [] result taken a h = let e : result ≡ taken = cc h in rw (sym e) a
take_updates-kinds (name ∷ names) result taken a h =
    let (u, g, k) = bind_ok (guard (contains allowed_names name) _) _ taken h in
    take_updates-kinds names _ taken
      (taken-kinds (contains result name) result name a (guard_ok _ _ u g)) k

updates-kinds :
    (raw : RawUpdates) (taken : List Text) → allowed_updates_of raw ≡ ok taken → All IsKind taken
unfolding allowed_updates_of
updates-kinds default_updates taken h = take_updates-kinds _ [] taken tt h
updates-kinds no_list taken h = absurd (cc h)
updates-kinds (listed names) taken h =
    let (u, g, k) = bind_ok (guard (is_short names) _) _ taken h in
    take_updates-kinds names [] taken tt k

limits_of-IsSpec :
    (f : Defaults) (d : Descriptor) (spec : BotSpec) → limits_of f d ≡ ok spec → IsSpec spec
unfolding limits_of
limits_of-IsSpec f d spec h =
    let (a, ha, h1) = bind_ok (limit_value d.max_inflight f.max_inflight 1 64) _ spec h in
    let (b, hb, h2) =
      bind_ok (limit_value d.rate_per_minute f.rate_per_minute 10 100000) _ spec h1 in
    let (c, hc, h3) = bind_ok (limit_value d.burst f.burst 1 5000) _ spec h2 in
    let (t, ht, h4) =
      bind_ok (limit_value d.handler_timeout_seconds f.handler_timeout_seconds 1 120) _ spec h3 in
    let (n, hn, h5) =
      bind_ok (limit_value d.failure_threshold f.failure_threshold 2 100) _ spec h4 in
    let (w, hw, h6) =
      bind_ok (limit_value d.failure_window_seconds f.failure_window_seconds 10 3600) _ spec h5 in
    let (o, ho, h7) =
      bind_ok (limit_value d.failure_cooldown_seconds f.failure_cooldown_seconds 5 3600) _ spec
        h6 in
    let (u, hu, h8) = bind_ok (allowed_updates_of d.allowed_updates) _ spec h7 in
    let e : record {
      name = d.name;
      max_inflight = a;
      rate_per_minute = b;
      burst = c;
      handler_timeout_seconds = t;
      failure_threshold = n;
      failure_window_seconds = w;
      failure_cooldown_seconds = o;
      allowed_updates = u;
    }
        ≡ spec =
      cc h8 in
    rw (sym e) (record {
      inflight = limit_value_bounds d.max_inflight f.max_inflight 1 64 a ha;
      rate = limit_value_bounds d.rate_per_minute f.rate_per_minute 10 100000 b hb;
      burst = limit_value_bounds d.burst f.burst 1 5000 c hc;
      timeout = limit_value_bounds d.handler_timeout_seconds f.handler_timeout_seconds 1 120 t ht;
      threshold = limit_value_bounds d.failure_threshold f.failure_threshold 2 100 n hn;
      window = limit_value_bounds d.failure_window_seconds f.failure_window_seconds 10 3600 w hw;
      cooldown =
          limit_value_bounds d.failure_cooldown_seconds f.failure_cooldown_seconds 5 3600 o ho;
      updates = updates-kinds d.allowed_updates u hu;
    })

spec_of-IsSpec :
    (f : Defaults) (d : Descriptor) (r : Registry) (spec : BotSpec)
    → spec_of f d r ≡ ok spec
    → IsSpec spec
unfolding spec_of
spec_of-IsSpec f d r spec h =
    let (_, _, h1) = bind_ok (guard (not (d.token == [])) missing_token) _ spec h in
    let (_, _, h2) =
      bind_ok (guard (leb (length d.secret) 256 && all_are is_url_safe d.secret) invalid_secret) _
        spec h1 in
    let (_, _, h3) =
      bind_ok (guard (not (is_known (lookup d.name r.bots))) duplicate_name) _ spec h2 in
    limits_of-IsSpec f d spec h3

-- Every bot that is set up has its limits.
abbrev pub IsBounded : Registry → Type 0
IsBounded r = All (λ b. IsSpec b.1) r.bots

insert-IsBounded :
    (name : Text) (spec : BotSpec) (bots : Dict Text BotSpec)
    → IsSpec spec
    → All (λ b. IsSpec b.1) bots
    → All (λ b. IsSpec b.1) (insert name spec bots)
unfolding insert
insert-IsBounded name spec [] i a = (i, tt)
insert-IsBounded name spec ((k, s) ∷ bots) i a = elim (Bool-cases (name == k)) [
  | inl e ↦ rw e (i, a.1)
  | inr e ↦ rw e (a.0, insert-IsBounded name spec bots i a.1)
]

module _ (L : HubLibrary) (h : HubSettings) (f : Defaults) where
  load_plugin-IsBounded :
      (loads : Bool) (name : Text) (r : Registry)
      → IsBounded r
      → IsBounded (load_plugin L h loads name r)
  unfolding note_error
  load_plugin-IsBounded true name r b = b
  load_plugin-IsBounded false name r b = b

  set_up-IsBounded :
      (loads : Bool) (name : Text) (r : Registry) (o : Result BotError BotSpec)
      → ((spec : BotSpec) → o ≡ ok spec → IsSpec spec)
      → IsBounded r
      → IsBounded (set_up L h loads name r o)
  unfolding note_error
  set_up-IsBounded loads name r (err e) k b = b
  set_up-IsBounded loads name r (ok spec) k b =
      load_plugin-IsBounded loads name (record r { bots = insert name spec r.bots })
        (insert-IsBounded name spec r.bots (k spec refl) b)

  if-IsBounded :
      (b : Bool) (r q : Registry) → IsBounded r → IsBounded q → IsBounded (if b then r else q)
  if-IsBounded true r q i j = i
  if-IsBounded false r q i j = j

  start_bot-IsBounded :
      (number : ℕ) (d : Descriptor) (loads : Bool) (r : Registry)
      → IsBounded r
      → IsBounded (start_bot L h f number d loads r)
  unfolding start_bot note_error
  start_bot-IsBounded number d loads r b = if-IsBounded (not d.is_object) _ _ b (
      if-IsBounded (not (is_safe_bot_name L d.name)) _ _ b
        (set_up-IsBounded loads d.name _ (spec_of f d _) (λ spec e. spec_of-IsSpec f d _ spec e) b))

  start_bots-keep :
      (number : ℕ) (ds : List (Descriptor × Bool)) (r : Registry)
      → IsBounded r
      → IsBounded (start_bots L h f number ds r)
  unfolding start_bots
  start_bots-keep number [] r b = b
  start_bots-keep number ((d, loads) ∷ ds) r b =
      start_bots-keep (number + 1) ds _ (start_bot-IsBounded number d loads r b)

  -- Whatever the descriptors say, and whichever plugins load, every bot that the hub sets up has its limits
  -- within the bounds of the program, also the limits that come from the settings, and is to
  -- receive only kinds of updates that Telegram has.
  pub start_bots-IsBounded :
      (ds : List (Descriptor × Bool))
      → IsBounded (start_bots L h f 1 ds (record { bots = []; runtime = [] }))
  start_bots-IsBounded ds = start_bots-keep 1 ds (record { bots = []; runtime = [] }) tt
