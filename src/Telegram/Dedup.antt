-- ===== src/Telegram/Dedup.antt =====
-- `UpdateDeduplicator` of src/titanbox/telegram.py. Update ids are compared for equality only, so
-- their type is a parameter. Times are whole seconds or any finer unit of the monotonic clock.
pub mod Laws
pub mod Bounds
pub mod Handlers
use vpsssssskjwjw.Prelude.{
  ℕ, ◌-◌, Bool, true, false, Option, none, some, List, [], ◌∷◌, ◌++◌, Eq, ◌==◌, contains, leb,
  length, drop, if◌then◌else◌,
}
use vpsssssskjwjw.Prelude.Dict.{Dict, lookup, insert, erase}

pub data Disposition : Type 0 where
  completed inflight new : Disposition

-- `completed` stands oldest first; the set of ids in flight is a list.
pub record Deduplicator (UpdateId : Type 0) : Type 0 where
  pub max_items : ℕ
  pub ttl : ℕ
  pub done : Dict UpdateId ℕ
  pub running : List UpdateId

unfoldable pub make : {UpdateId : Type 0} → ℕ → ℕ → Deduplicator UpdateId
make max_items ttl = record { max_items = max_items; ttl = ttl; done = []; running = [] }

-- The first loop of `_prune`: entries leave at the front while they are older than the time to live.
unfoldable pub drop_expired {ℓ} : {UpdateId : Type ℓ} → ℕ → ℕ → Dict UpdateId ℕ → Dict UpdateId ℕ
drop_expired ttl now [] = []
drop_expired ttl now ((i, ts) ∷ d) =
    let rest = drop_expired ttl now d in if leb (now - ts) ttl then (i, ts) ∷ d else rest

-- The second loop: the oldest leave while there are more than `max_items`.
unfoldable pub prune : {UpdateId : Type 0} → ℕ → ℕ → ℕ → Dict UpdateId ℕ → Dict UpdateId ℕ
unfolding drop_expired
prune max_items ttl now d =
    let fresh = drop_expired ttl now d in drop (length fresh - max_items) fresh

module _ {UpdateId : Type 0} ⦃e : Eq UpdateId⦄ where
  -- `set.discard`
  unfoldable pub discard : UpdateId → List UpdateId → List UpdateId
  discard i [] = []
  discard i (j ∷ xs) = let rest = discard i xs in if i == j then rest else j ∷ rest

  -- `OrderedDict.move_to_end`; the key is there whenever the code calls it.
  unfoldable pub move_to_end : UpdateId → Dict UpdateId ℕ → Dict UpdateId ℕ
  move_to_end i d = elim (lookup i d) [ none ↦ d | some ts ↦ erase i d ++ ((i, ts) ∷ []) ]

  unfoldable pub begin : Deduplicator UpdateId → UpdateId → ℕ → Disposition × Deduplicator UpdateId
  begin u i now =
      let done = prune u.max_items u.ttl now u.done in
      elim (lookup i done) [
        | some ts ↦ (completed, record u { done = move_to_end i done })
        | none ↦
            if contains u.running i
            then (inflight, record u { done = done })
            else (new, record u { done = done; running = i ∷ u.running })
      ]

  -- The clock is read twice: for the new entry, and for the pruning.
  unfoldable pub complete : Deduplicator UpdateId → UpdateId → ℕ → ℕ → Deduplicator UpdateId
  unfolding discard
  complete u i now now' = record u {
    done = prune u.max_items u.ttl now' (move_to_end i (insert i now u.done));
    running = discard i u.running;
  }

  unfoldable pub fail : Deduplicator UpdateId → UpdateId → Deduplicator UpdateId
  unfolding discard
  fail u i = record u { running = discard i u.running }
