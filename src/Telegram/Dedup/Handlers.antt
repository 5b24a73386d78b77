-- ===== src/Telegram/Dedup/Handlers.antt =====
-- Any interleaving of requests: at most one handler runs for an update at a time.
use vpsssssskjwjw.Prelude.{
  ℕ, ◌+◌, ◌≤◌, ◌≡◌, refl, List, [], ◌∷◌, Eq, ◌==◌, false, contains, arith, if◌then◌else◌,
}
use vpsssssskjwjw.Telegram.Dedup.{
  Deduplicator, Disposition, new, begin, complete, fail, make, discard,
}

-- What may happen next: a request for an update arrives, or a handler ends. The clock readings go
-- with the events.
pub data Event (UpdateId : Type 0) : Type 0 where
  arrive : UpdateId → ℕ → Event UpdateId
  succeed : UpdateId → ℕ → ℕ → Event UpdateId
  abort : UpdateId → Event UpdateId

-- The handlers that run, one entry for each of them.
pub record System (UpdateId : Type 0) : Type 0 where
  pub dedup : Deduplicator UpdateId
  pub handlers : List UpdateId

module _ {UpdateId : Type 0} ⦃e : Eq UpdateId⦄ where
  unfoldable pub remove_one : UpdateId → List UpdateId → List UpdateId
  remove_one i [] = []
  remove_one i (j ∷ xs) = let rest = remove_one i xs in if i == j then xs else j ∷ rest

  abbrev started : Disposition → UpdateId → List UpdateId → List UpdateId
  started new i handlers = i ∷ handlers
  started _ i handlers = handlers

  -- Only a handler that runs can end.
  unfoldable pub step : System UpdateId → Event UpdateId → System UpdateId
  unfolding remove_one
  step s (arrive i now) =
      let (d, u) = begin s.dedup i now in record { dedup = u; handlers = started d i s.handlers }
  step s (succeed i now now') =
      if contains s.handlers i
      then record { dedup = complete s.dedup i now now'; handlers = remove_one i s.handlers }
      else s
  step s (abort i) =
      if contains s.handlers i
      then record { dedup = fail s.dedup i; handlers = remove_one i s.handlers }
      else s

  unfoldable pub run : System UpdateId → List (Event UpdateId) → System UpdateId
  unfolding step
  run s [] = s
  run s (ev ∷ events) = run (step s ev) events

  unfoldable pub count : UpdateId → List UpdateId → ℕ
  count i [] = 0
  count i (j ∷ xs) = (if i == j then 1 else 0) + count i xs

  count-absent : (i : UpdateId) (xs : List UpdateId) → contains xs i ≡ false → count i xs ≡ 0
  unfolding count
  count-absent i [] h = refl
  count-absent i (j ∷ xs) h = ground (arith, count-absent i xs)

  -- Each id at most once, and the ids in flight are those of the handlers, in the same order.
  record IsExclusive (s : System UpdateId) : Type 0 where
    once : (i : UpdateId) → count i s.handlers ≤ 1
    same : s.dedup.running ≡ s.handlers

  discard-absent : (i : UpdateId) (xs : List UpdateId) → count i xs ≡ 0 → discard i xs ≡ xs
  unfolding discard count
  discard-absent i [] h = refl
  discard-absent i (j ∷ xs) h = ground (arith, discard-absent i xs)

  discard-eq-remove_one :
      (i : UpdateId) (xs : List UpdateId) → count i xs ≤ 1 → discard i xs ≡ remove_one i xs
  unfolding discard remove_one count
  discard-eq-remove_one i [] h = refl
  discard-eq-remove_one i (j ∷ xs) h =
      ground (arith, discard-absent i xs, discard-eq-remove_one i xs)

  count-remove_one-le :
      (i j : UpdateId) (xs : List UpdateId) → count i (remove_one j xs) ≤ count i xs
  unfolding remove_one count
  count-remove_one-le i j [] = omega arith
  count-remove_one-le i j (k ∷ xs) = ground (arith, count-remove_one-le i j xs)

  step-IsExclusive :
      (s : System UpdateId) (ev : Event UpdateId) → IsExclusive s → IsExclusive (step s ev)
  unfolding step begin complete fail count
  step-IsExclusive s (arrive i now) h = record {
    once = λ j. ground (arith, h.once j, h.same, count-absent i s.handlers);
    same = ground (arith, h.same);
  }
  step-IsExclusive s (succeed i now now') h = record {
    once = λ j. ground (arith, h.once j, count-remove_one-le j i s.handlers);
    same = ground (arith, h.same, discard-eq-remove_one i s.handlers (h.once i));
  }
  step-IsExclusive s (abort i) h = record {
    once = λ j. ground (arith, h.once j, count-remove_one-le j i s.handlers);
    same = ground (arith, h.same, discard-eq-remove_one i s.handlers (h.once i));
  }

  run-IsExclusive :
      (s : System UpdateId) (events : List (Event UpdateId))
      → IsExclusive s
      → IsExclusive (run s events)
  unfolding run
  run-IsExclusive s [] h = h
  run-IsExclusive s (ev ∷ events) h = run-IsExclusive (step s ev) events (step-IsExclusive s ev h)

  abbrev pub start : ℕ → ℕ → System UpdateId
  unfolding make
  start max_items ttl = record { dedup = make max_items ttl; handlers = [] }

  -- From an empty deduplicator, after any interleaving of arriving requests and ending handlers,
  -- at most one handler runs for each update, and the ids in flight are those of the handlers.
  pub run_exclusive :
      (max_items ttl : ℕ) (events : List (Event UpdateId)) (i : UpdateId)
      → (count i (run (start max_items ttl) events).handlers ≤ 1)
        × ((run (start max_items ttl) events).dedup.running
            ≡ (run (start max_items ttl) events).handlers)
  unfolding start count
  run_exclusive max_items ttl events i =
      let h =
        run-IsExclusive (start max_items ttl) events
          (record { once = λ j. omega arith; same = refl }) in
      (h.once i, h.same)
