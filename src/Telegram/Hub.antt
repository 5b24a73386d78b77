-- ===== src/Telegram/Hub.antt =====
-- `TelegramHub.handle` of src/titanbox/telegram.py, for one bot and the hub's shared counters. The
-- method awaits in places where other requests can run. It is three functions: `gate` up
-- to the deduplicator's answer, `enter` for the two slots, as they stand when the wait for both is over, and `leave` for what follows the plugin.
-- Within each of them the clock is read once, `now` in milliseconds; `leave` reads it again for the
-- record of completed updates. An update id is compared for equality only: its type is a parameter.
pub mod Reading
pub mod Slots
pub mod Answers
use vpsssssskjwjw.Prelude.{
  ℕ, ◌+◌, ◌-◌, ◌*◌, ◌/◌, Bool, true, false, ◌&&◌, not, Option, none, some, List, Text, Eq, text_eq,
  nat_eq, ◌==◌, leb, ltb, if◌then◌else◌,
}
use vpsssssskjwjw.Security.TokenBucket
use vpsssssskjwjw.Security.TokenBucket.{TokenBucket}
use vpsssssskjwjw.Security.FailureCircuit
use vpsssssskjwjw.Security.FailureCircuit.{FailureCircuit}
use vpsssssskjwjw.Telegram.Dedup
use vpsssssskjwjw.Telegram.Dedup.{Deduplicator}
use vpsssssskjwjw.Telegram.Hub.Reading.{
  Request, HttpLibrary, Reply, ok_true, http_error, crashed, Parsed, rejected, refused, update,
  read_request,
}

-- The counters of `BotRuntimeState` that `handle` writes.
pub record BotRuntimeState : Type 0 where
  pub active_handlers : ℕ
  pub total_handled : ℕ
  pub total_rejected : ℕ
  pub circuit_open : Bool
  pub circuit_retry_after_seconds : ℕ
  pub recent_failures : ℕ

-- A bot with its `BotControl`, where a semaphore is the number of slots that are free.
pub record Bot (UpdateId : Type 0) : Type 0 where
  pub secret : Text
  pub state : BotRuntimeState
  pub semaphore : ℕ
  pub limiter : TokenBucket
  pub circuit : FailureCircuit
  pub dedup : Deduplicator UpdateId

-- What the bots of a hub share.
pub record Shared : Type 0 where
  pub global_slots : ℕ
  pub active_handlers : ℕ
  pub total_handled : ℕ
  pub total_rejected : ℕ

pub record Settings : Type 0 where
  pub webhook_max_body_bytes : ℕ
  pub memory_pressure_limit_pct : ℕ

-- `memory_pressure_pct() >= limit`, for the bytes in use and the limit of the container.
unfoldable pub under_pressure : Option ℕ → Option ℕ → ℕ → Bool
under_pressure none limit pct = false
under_pressure (some current) none pct = false
under_pressure (some current) (some limit) pct = ltb 0 limit && leb (pct * limit) (current * 100)

abbrev pub reject : Shared → Shared
reject h = record h { total_rejected = h.total_rejected + 1 }

module _ {UpdateId : Type 0} where
  -- `state.total_rejected += 1`, on the bot and on the hub
  abbrev pub count_rejected : Bot UpdateId → Bot UpdateId
  count_rejected b = record b {
    state = record b.state { total_rejected = b.state.total_rejected + 1 };
  }

  -- `_sync_circuit_state`
  unfoldable pub sync_circuit_state : Bot UpdateId → ℕ → Bot UpdateId
  sync_circuit_state b now =
      let (wait, c) = FailureCircuit.retry_after b.circuit now in
      let (recent, c') = FailureCircuit.recent_failures c now in
      record b {
        circuit = c';
        state = record b.state {
          circuit_retry_after_seconds = wait;
          circuit_open = ltb 0 wait;
          recent_failures = recent;
        };
      }

pub data Gate (UpdateId Update : Type 0) : Type 0 where
  answered : Reply → Gate UpdateId Update
  proceed : UpdateId → Update → Gate UpdateId Update

module _ {UpdateId Update : Type 0} ⦃e : Eq UpdateId⦄ where
  abbrev rejected_with :
      Reply → Bot UpdateId → Shared → Gate UpdateId Update × Bot UpdateId × Shared
  rejected_with r b h = (answered r, count_rejected b, reject h)

  -- The deduplicator's answer; a duplicate in flight is never acknowledged.
  unfoldable pub deduplicate :
      UpdateId → Update → Bot UpdateId → Shared → ℕ → Gate UpdateId Update × Bot UpdateId × Shared
  deduplicate i u b h now =
      let (d, dedup) = Dedup.begin b.dedup i now in
      let b' = record b { dedup = dedup } in
      elim d [
        | Dedup.completed ↦ (answered ok_true, b', h)
        | Dedup.inflight ↦ rejected_with (http_error 503 (some 1)) b' h
        | Dedup.new ↦ (proceed i u, b', h)
      ]

  unfoldable pub limit :
      UpdateId → Update → Bot UpdateId → Shared → ℕ → Gate UpdateId Update × Bot UpdateId × Shared
  limit i u b h now =
      let (allowed, limiter) = TokenBucket.allow b.limiter TokenBucket.unit now in
      let b' = record b { limiter = limiter } in
      if allowed then deduplicate i u b' h now else rejected_with (http_error 429 (some 1)) b' h

  -- `is_open`, then `retry_after` for the header if it is.
  unfoldable pub check_circuit :
      UpdateId → Update → Bot UpdateId → Shared → ℕ → Gate UpdateId Update × Bot UpdateId × Shared
  check_circuit i u b h now =
      let b₁ = sync_circuit_state b now in
      let (open', c) = FailureCircuit.is_open b₁.circuit now in
      let b₂ = record b₁ { circuit = c } in
      let (wait, c') = FailureCircuit.retry_after c now in
      if open'
      then rejected_with (http_error 503 (some wait))
          (sync_circuit_state (record b₂ { circuit = c' }) now) h
      else limit i u b₂ h now

  unfoldable pub admit :
      Settings
      → Option ℕ
      → Option ℕ
      → Parsed UpdateId Update
      → Bot UpdateId
      → Shared
      → ℕ
      → Gate UpdateId Update × Bot UpdateId × Shared
  admit settings current limit' (rejected r) b h now = rejected_with r b h
  admit settings current limit' (refused r) b h now = (answered r, b, h)
  admit settings current limit' (update i u) b h now =
      if under_pressure current limit' settings.memory_pressure_limit_pct
      then rejected_with (http_error 503 (some 2)) b h
      else check_circuit i u b h now

  unfoldable pub gate :
      HttpLibrary UpdateId Update
      → Settings
      → Option ℕ
      → Option ℕ
      → Request
      → Bot UpdateId
      → Shared
      → ℕ
      → Gate UpdateId Update × Bot UpdateId × Shared
  gate L settings current limit' r b h now =
      admit settings current limit' (read_request L b.secret r settings.webhook_max_body_bytes) b h
        now

pub data Ending : Type 0 where
  returned timed_out raised cancelled : Ending

abbrev release_shared : Shared → Shared
release_shared h = record h {
  global_slots = h.global_slots + 1;
  active_handlers = h.active_handlers - 1;
}

module _ {UpdateId : Type 0} ⦃e : Eq UpdateId⦄ where
  -- The two `_acquire_slot` calls, as they stand when the wait of each is over: a slot is taken if
  -- one is free then, and else the call has timed out. `some r` is the answer of a request that got
  -- no slot; its `finally` block gives the global slot back and lowers the hub's `active_handlers`.
  unfoldable pub enter : UpdateId → Bot UpdateId → Shared → Option Reply × Bot UpdateId × Shared
  enter i b h =
      let failed = record (count_rejected b) { dedup = Dedup.fail b.dedup i } in
      let h' = reject h in
      if h.global_slots == 0
      then (some (http_error 503 (some 1)), failed, h')
      else if b.semaphore == 0
      then (
        some (http_error 503 (some 1)),
        failed,
        record h' { active_handlers = h.active_handlers - 1 },
      )
      else (
        none,
        record b {
          semaphore = b.semaphore - 1;
          state = record b.state { active_handlers = b.state.active_handlers + 1 };
        },
        record h { global_slots = h.global_slots - 1; active_handlers = h.active_handlers + 1 },
      )

  -- The `finally` block of a request that held both slots.
  abbrev release_bot : Bot UpdateId → Bot UpdateId
  release_bot b = record b {
    semaphore = b.semaphore + 1;
    state = record b.state { active_handlers = b.state.active_handlers - 1 };
  }

  -- The two `except` branches and the `else` branch around the plugin's handler. A cancellation passes
  -- through the `finally` block alone, and leaves the update in flight.
  unfoldable pub leave :
      Ending → UpdateId → Bot UpdateId → Shared → ℕ → ℕ → Reply × Bot UpdateId × Shared
  leave returned i b h now now' =
      let c = FailureCircuit.record_success b.circuit now now in
      let b₁ = sync_circuit_state (record b { circuit = c }) now in
      let b₂ = record b₁ {
        dedup = Dedup.complete b₁.dedup i now now';
        state = record b₁.state { total_handled = b₁.state.total_handled + 1 };
      } in
      (ok_true, release_bot b₂, release_shared (record h { total_handled = h.total_handled + 1 }))
  leave cancelled i b h now now' = (crashed, release_bot b, release_shared h)
  leave _ i b h now now' =
      let c = FailureCircuit.record_failure b.circuit now in
      let b₁ = sync_circuit_state (record b { circuit = c }) now in
      let b₂ = count_rejected (record b₁ { dedup = Dedup.fail b₁.dedup i }) in
      (http_error 503 (some 2), release_bot b₂, release_shared (reject h))
