-- ===== src/Tests/Telegram.antt =====
-- The deduplicator and the webhook handler of src/titanbox/telegram.py at concrete inputs.
use vpsssssskjwjw.Prelude.{
  ℕ, ◌+◌, ◌-◌, ◌≤◌, ◌<◌, ◌≡◌, refl, Bool, true, false, Option, none, some, List, Text, [], ◌∷◌,
  length, nat_eq, text_eq, codes, arith,
}
use vpsssssskjwjw.Prelude.Dict.{lookup}
use vpsssssskjwjw.Telegram.Dedup.{Deduplicator, new, inflight, completed, begin, complete, fail}
use vpsssssskjwjw.Telegram.Dedup.Bounds.{completed_bounded}
use vpsssssskjwjw.Telegram.Dedup.Laws.{begin_after_fail, begin_while_inflight, begin_after_complete}
use vpsssssskjwjw.Telegram.Dedup.Handlers.{arrive, abort, run, start, count, run_exclusive}
use vpsssssskjwjw.Telegram.Hub.{
  BotRuntimeState, Bot, Shared, Settings, raised, cancelled, gate, proceed,
}
use vpsssssskjwjw.Telegram.Hub.Reading.{HttpLibrary, Request, update, read_request}
use vpsssssskjwjw.Telegram.Hub.Slots
use vpsssssskjwjw.Telegram.Hub.Slots.{IsBalanced, run-IsBalanced}
use vpsssssskjwjw.Telegram.Hub.Answers.{HasPassed, gate_proceed}

abbrev dedup : Deduplicator ℕ
dedup = record { max_items = 2; ttl = 1000; done = (5, 300) ∷ (6, 400) ∷ []; running = 7 ∷ [] }

completed_bounded_example :
    (length (begin dedup 7 500).1.done ≤ 2) × (length (complete dedup 7 500 500).done ≤ 2)
completed_bounded_example = completed_bounded dedup 7 500 500

begin_after_fail_example : (begin (fail (begin dedup 8 500).1 8) 8 600).0 ≡ new
unfolding begin lookup vpsssssskjwjw.Telegram.Dedup.prune vpsssssskjwjw.Prelude.ℕ_discrete
begin_after_fail_example = begin_after_fail dedup 8 500 600 refl

begin_while_inflight_example : (begin (begin dedup 8 500).1 8 600).0 ≡ inflight
unfolding begin lookup vpsssssskjwjw.Telegram.Dedup.prune vpsssssskjwjw.Prelude.ℕ_discrete
begin_while_inflight_example = begin_while_inflight dedup 8 500 600 refl

begin_after_complete_example : (begin (complete dedup 7 500 501) 7 600).0 ≡ completed
begin_after_complete_example =
    begin_after_complete dedup 7 500 501 600 (omega arith) (omega arith) (omega arith)

run_exclusive_example :
    (count {UpdateId = ℕ} 7
        (run {UpdateId = ℕ}
          (start 10 1000)
          (arrive 7 1 ∷ arrive 7 2 ∷ abort 7 ∷ arrive 7 3 ∷ [])).handlers
      ≤ 1)
    × ((run {UpdateId = ℕ}
          (start 10 1000)
          (arrive 7 1 ∷ arrive 7 2 ∷ abort 7 ∷ arrive 7 3 ∷ [])).dedup.running
        ≡ (run {UpdateId = ℕ}
            (start 10 1000)
            (arrive 7 1 ∷ arrive 7 2 ∷ abort 7 ∷ arrive 7 3 ∷ [])).handlers)
run_exclusive_example =
    run_exclusive 10 1000 (arrive 7 1 ∷ arrive 7 2 ∷ abort 7 ∷ arrive 7 3 ∷ []) 7

abbrev state : BotRuntimeState
state = record {
  active_handlers = 0;
  total_handled = 0;
  total_rejected = 0;
  circuit_open = false;
  circuit_retry_after_seconds = 0;
  recent_failures = 0;
}

abbrev bot : ℕ → Bot ℕ
bot slots = record {
  secret = codes "secret";
  state = state;
  semaphore = slots;
  limiter = record { rate_per_minute = 60; capacity = 60000; tokens = 60000; updated = 0 };
  circuit = record {
    threshold = 3;
    window_ms = 1000;
    cooldown_ms = 5000;
    failures = [];
    open_until = 0;
  };
  dedup = dedup;
}

abbrev shared : Shared
shared = record { global_slots = 4; active_handlers = 3; total_handled = 0; total_rejected = 0 }

-- A body is an update with its length for the identifier.
abbrev http : HttpLibrary ℕ ℕ
http = record {
  lower = λ s. s;
  is_digit = λ c. true;
  int = λ s. none;
  Json = ℕ;
  loads = λ s. some (length s);
  as_dict = λ j. some j;
  update_id = λ u. some u;
}

abbrev system : Slots.System ℕ
system = record {
  bot = bot 2;
  shared = record shared { active_handlers = 0 };
  handlers = [];
  waiting = 7 ∷ 8 ∷ 9 ∷ [];
  others = 1;
}

abbrev events : List (Slots.Event ℕ)
events =
    Slots.acquire 7
    ∷ Slots.other_enters
    ∷ Slots.acquire 8
    ∷ Slots.acquire 9
    ∷ Slots.finish raised 7 5 6
    ∷ Slots.finish cancelled 8 7 7
    ∷ []

run-IsBalanced_example : IsBalanced 2 5 (
    Slots.run http
      (record { webhook_max_body_bytes = 100; memory_pressure_limit_pct = 90 })
      system
      events)
run-IsBalanced_example =
    run-IsBalanced http (record { webhook_max_body_bytes = 100; memory_pressure_limit_pct = 90 }) 2
      5 system events
      (record { semaphore = refl; global_slots = refl; running = refl; shared = omega arith })

abbrev hub_settings : Settings
hub_settings = record { webhook_max_body_bytes = 100; memory_pressure_limit_pct = 90 }

abbrev request : Text → Request
request body = record {
  secret_token = codes "secret";
  content_type = codes "application/json";
  content_length = none;
  chunks = body ∷ [];
}

-- The update 8 is new, and the update 6 is completed.
gate_new :
    (gate http hub_settings (some 10) (some 100) (request (codes "12345678")) (bot 1) shared 500).0
    ≡ proceed 8 8
unfolding vpsssssskjwjw.Telegram.Hub.under_pressure vpsssssskjwjw.Telegram.Hub.sync_circuit_state
    vpsssssskjwjw.Telegram.Hub.deduplicate vpsssssskjwjw.Telegram.Hub.limit
    vpsssssskjwjw.Telegram.Hub.check_circuit vpsssssskjwjw.Telegram.Hub.admit
    vpsssssskjwjw.Telegram.Hub.gate vpsssssskjwjw.Telegram.Hub.enter
    vpsssssskjwjw.Telegram.Hub.leave vpsssssskjwjw.Telegram.Hub.Reading.read_body
    vpsssssskjwjw.Telegram.Hub.Reading.read_update
    vpsssssskjwjw.Telegram.Hub.Reading.declared_too_large
    vpsssssskjwjw.Telegram.Hub.Reading.read_content vpsssssskjwjw.Telegram.Hub.Reading.read_request
    vpsssssskjwjw.Telegram.Dedup.make vpsssssskjwjw.Telegram.Dedup.prune
    vpsssssskjwjw.Telegram.Dedup.discard vpsssssskjwjw.Telegram.Dedup.move_to_end
    vpsssssskjwjw.Telegram.Dedup.begin vpsssssskjwjw.Telegram.Dedup.complete
    vpsssssskjwjw.Telegram.Dedup.fail vpsssssskjwjw.Security.TokenBucket.make
    vpsssssskjwjw.Security.TokenBucket.refill vpsssssskjwjw.Security.TokenBucket.allow
    vpsssssskjwjw.Security.FailureCircuit.make vpsssssskjwjw.Security.FailureCircuit.drop_old
    vpsssssskjwjw.Security.FailureCircuit.prune vpsssssskjwjw.Security.FailureCircuit.seconds_left
    vpsssssskjwjw.Security.FailureCircuit.retry_after vpsssssskjwjw.Security.FailureCircuit.is_open
    vpsssssskjwjw.Security.FailureCircuit.record_failure
    vpsssssskjwjw.Security.FailureCircuit.record_success
    vpsssssskjwjw.Security.FailureCircuit.recent_failures vpsssssskjwjw.Prelude.Dict.lookup
    vpsssssskjwjw.Prelude.Dict.insert vpsssssskjwjw.Prelude.text_dec
    vpsssssskjwjw.Prelude.ℕ_discrete vpsssssskjwjw.Prelude.has_infix
gate_new = refl

gate_proceed_example :
    (codes "secret" ≡ codes "secret")
    × (read_request http (codes "secret") (request (codes "12345678")) 100 ≡ update 8 8)
    × HasPassed hub_settings (some 10) (some 100) 8 (bot 1) 500
gate_proceed_example =
    gate_proceed http hub_settings (some 10) (some 100) (request (codes "12345678")) (bot 1) shared
      500 8 8 gate_new
