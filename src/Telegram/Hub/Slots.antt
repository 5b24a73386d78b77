-- ===== src/Telegram/Hub/Slots.antt =====
-- The slots of one bot and of the hub over any interleaving of its requests with the other bots'.
use vpsssssskjwjw.Prelude.{
  ℕ, ◌+◌, ◌-◌, ◌≤◌, ◌≡◌, refl, true, Option, none, some, List, [], ◌∷◌, Eq, nat_eq, ◌==◌, contains,
  length, arith, if◌then◌else◌,
}
use vpsssssskjwjw.Security.TokenBucket
use vpsssssskjwjw.Security.FailureCircuit
use vpsssssskjwjw.Telegram.Dedup.Handlers.{remove_one}
use vpsssssskjwjw.Telegram.Hub.{
  Bot, Shared, Settings, Gate, answered, proceed, Ending, returned, cancelled, gate, admit,
  check_circuit, limit, deduplicate, enter, leave, sync_circuit_state,
}
use vpsssssskjwjw.Telegram.Hub.Reading.{Request, HttpLibrary, Parsed, update}

module _ {UpdateId : Type 0} where
  -- The slots and the counts of running handlers are those of before.
  pub record SameSlots (b : Bot UpdateId) (h : Shared) (b' : Bot UpdateId) (h' : Shared)
      : Type 0 where
    pub semaphore : b'.semaphore ≡ b.semaphore
    pub global_slots : h'.global_slots ≡ h.global_slots
    pub running : b'.state.active_handlers ≡ b.state.active_handlers
    pub shared : h'.active_handlers ≡ h.active_handlers

module _ {UpdateId Update : Type 0} ⦃e : Eq UpdateId⦄ where
  deduplicate-SameSlots :
      (i : UpdateId) (u : Update) (b : Bot UpdateId) (h : Shared) (now : ℕ)
      → SameSlots b h (deduplicate i u b h now).1 (deduplicate i u b h now).2
  unfolding deduplicate
  deduplicate-SameSlots i u b h now = ground arith

  limit-SameSlots :
      (i : UpdateId) (u : Update) (b : Bot UpdateId) (h : Shared) (now : ℕ)
      → SameSlots b h (limit i u b h now).1 (limit i u b h now).2
  unfolding limit
  limit-SameSlots i u b h now = ground (
    arith,
    deduplicate-SameSlots i u
        (record b { limiter = (TokenBucket.allow b.limiter TokenBucket.unit now).1 }) h now,
  )

  check_circuit-SameSlots :
      (i : UpdateId) (u : Update) (b : Bot UpdateId) (h : Shared) (now : ℕ)
      → SameSlots b h (check_circuit i u b h now).1 (check_circuit i u b h now).2
  unfolding check_circuit sync_circuit_state
  check_circuit-SameSlots i u b h now =
      let b₁ = sync_circuit_state b now in
      ground (
        arith,
        limit-SameSlots i u (record b₁ { circuit = (FailureCircuit.is_open b₁.circuit now).1 }) h
            now,
      )

  admit-SameSlots :
      (settings : Settings) (current limit' : Option ℕ) (p : Parsed UpdateId Update)
      (b : Bot UpdateId) (h : Shared) (now : ℕ)
      → SameSlots b h
          (admit settings current limit' p b h now).1
          (admit settings current limit' p b h now).2
  unfolding admit
  admit-SameSlots settings current limit' (update i u) b h now =
      ground (arith, check_circuit-SameSlots i u b h now)
  admit-SameSlots settings current limit' _ b h now = ground arith

  -- The checks in front of the deduplicator, whatever they answer, take and release no slot.
  pub gate-SameSlots :
      (L : HttpLibrary UpdateId Update) (settings : Settings) (current limit' : Option ℕ)
      (r : Request) (b : Bot UpdateId) (h : Shared) (now : ℕ)
      → SameSlots b h
          (gate L settings current limit' r b h now).1
          (gate L settings current limit' r b h now).2
  unfolding gate
  gate-SameSlots L settings current limit' r b h now =
      admit-SameSlots settings current limit' _ b h now

-- What may happen next at a hub: a request for the bot arrives, a request that passed the checks
-- ends its wait for the slots, a handler of the bot ends; or another bot takes a global slot, gives
-- one back, or turns a request away because that bot is busy.
pub data Event (UpdateId : Type 0) : Type 0 where
  arrive : Option ℕ → Option ℕ → Request → ℕ → Event UpdateId
  acquire : UpdateId → Event UpdateId
  finish : Ending → UpdateId → ℕ → ℕ → Event UpdateId
  other_enters other_leaves other_busy : Event UpdateId

pub record System (UpdateId : Type 0) : Type 0 where
  pub bot : Bot UpdateId
  pub shared : Shared
  pub waiting : List UpdateId
  pub handlers : List UpdateId
  pub others : ℕ

abbrev arrived : {UpdateId Update : Type 0} → Gate UpdateId Update → List UpdateId → List UpdateId
arrived (answered r) waiting = waiting
arrived (proceed i u) waiting = i ∷ waiting

module _ {UpdateId Update : Type 0} ⦃e : Eq UpdateId⦄ (L : HttpLibrary UpdateId Update)
    (settings : Settings) where
  unfoldable pub step : System UpdateId → Event UpdateId → System UpdateId
  step s (arrive current limit' r now) =
      let (g, b, h) = gate L settings current limit' r s.bot s.shared now in
      record s { bot = b; shared = h; waiting = arrived g s.waiting }
  step s (acquire i) =
      let (answer, b, h) = enter i s.bot s.shared in
      let left = record s { bot = b; shared = h; waiting = remove_one i s.waiting } in
      if contains s.waiting i
      then elim answer [ some r ↦ left | none ↦ record left { handlers = i ∷ s.handlers } ]
      else s
  step s (finish ending i now now') =
      let (reply, b, h) = leave ending i s.bot s.shared now now' in
      if contains s.handlers i
      then record s { bot = b; shared = h; handlers = remove_one i s.handlers }
      else s
  step s other_enters = if s.shared.global_slots == 0 then s else record s {
    shared = record s.shared {
      global_slots = s.shared.global_slots - 1;
      active_handlers = s.shared.active_handlers + 1;
    };
    others = s.others + 1;
  }
  step s other_leaves = if s.others == 0 then s else record s {
    shared = record s.shared {
      global_slots = s.shared.global_slots + 1;
      active_handlers = s.shared.active_handlers - 1;
    };
    others = s.others - 1;
  }
  step s other_busy = record s {
    shared = record s.shared { active_handlers = s.shared.active_handlers - 1 };
  }

  unfoldable pub run : System UpdateId → List (Event UpdateId) → System UpdateId
  run s [] = s
  run s (ev ∷ events) = run (step s ev) events

-- Every slot is free or held by a handler that runs, and the counts of running handlers are right:
-- the bot's exactly, the hub's from above.
pub record IsBalanced {UpdateId : Type 0} (max_inflight capacity : ℕ) (s : System UpdateId)
    : Type 0 where
  pub semaphore : s.bot.semaphore + length s.handlers ≡ max_inflight
  pub global_slots : s.shared.global_slots + length s.handlers + s.others ≡ capacity
  pub running : s.bot.state.active_handlers ≡ length s.handlers
  pub shared : s.shared.active_handlers ≤ length s.handlers + s.others

module _ {UpdateId : Type 0} ⦃e : Eq UpdateId⦄ where
  length-remove_one :
      (i : UpdateId) (xs : List UpdateId)
      → contains xs i ≡ true
      → length (remove_one i xs) + 1 ≡ length xs
  unfolding remove_one
  length-remove_one i [] h = absurd (cc h)
  length-remove_one i (j ∷ xs) h = ground (arith, length-remove_one i xs)

  leave_slots :
      (ending : Ending) (i : UpdateId) (b : Bot UpdateId) (h : Shared) (now now' : ℕ)
      → ((leave ending i b h now now').1.semaphore ≡ b.semaphore + 1)
        × ((leave ending i b h now now').2.global_slots ≡ h.global_slots + 1)
        × ((leave ending i b h now now').1.state.active_handlers ≡ b.state.active_handlers - 1)
        × ((leave ending i b h now now').2.active_handlers ≡ h.active_handlers - 1)
  unfolding leave sync_circuit_state
  leave_slots returned i b h now now' = (refl, refl, refl, refl)
  leave_slots cancelled i b h now now' = (refl, refl, refl, refl)
  leave_slots _ i b h now now' = (refl, refl, refl, refl)

module _ {UpdateId Update : Type 0} ⦃e : Eq UpdateId⦄ (L : HttpLibrary UpdateId Update)
    (settings : Settings) where
  step-IsBalanced :
      (m c : ℕ) (s : System UpdateId) (ev : Event UpdateId)
      → IsBalanced m c s
      → IsBalanced m c (step L settings s ev)
  unfolding step
  step-IsBalanced m c s (arrive current limit' r now) v =
      ground (arith, v, gate-SameSlots L settings current limit' r s.bot s.shared now)
  step-IsBalanced m c s (acquire i) v = unfold enter in ground (arith, v)
  step-IsBalanced m c s (finish ending i now now') v =
      ground
        (arith, v, leave_slots ending i s.bot s.shared now now', length-remove_one i s.handlers)
  step-IsBalanced m c s other_enters v = ground (arith, v)
  step-IsBalanced m c s other_leaves v = ground (arith, v)
  step-IsBalanced m c s other_busy v = ground (arith, v)

  -- From a balanced state any interleaving of requests, handlers and the other bots leads to a
  -- balanced state: no path through the handler leaks a slot or returns one twice.
  pub run-IsBalanced :
      (m c : ℕ) (s : System UpdateId) (events : List (Event UpdateId))
      → IsBalanced m c s
      → IsBalanced m c (run L settings s events)
  unfolding run
  run-IsBalanced m c s [] v = v
  run-IsBalanced m c s (ev ∷ events) v =
      run-IsBalanced m c (step L settings s ev) events (step-IsBalanced m c s ev v)
