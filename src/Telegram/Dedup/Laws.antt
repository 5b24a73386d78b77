-- ===== src/Telegram/Dedup/Laws.antt =====
-- A failed update can be tried again, and a completed one is remembered.
use vpsssssskjwjw.Prelude.{
  ℕ, zero, suc, ◌+◌, ◌-◌, ◌≤◌, ◌<◌, ◌≡◌, refl, List, [], ◌∷◌, ◌++◌, none, some, Eq, true, false,
  contains, arith, length, drop, leb, length-append,
}
use vpsssssskjwjw.Prelude.Dict.{Dict, lookup, insert, erase, lookup-insert, lookup-erase}
use vpsssssskjwjw.Telegram.Dedup.{
  Deduplicator, completed, inflight, new, begin, complete, fail, discard, drop_expired, prune,
  move_to_end,
}

module _ {UpdateId : Type 0} ⦃e : Eq UpdateId⦄ where
  lookup-drop-none :
      (i : UpdateId) (n : ℕ) (d : Dict UpdateId ℕ) → lookup i d ≡ none → lookup i (drop n d) ≡ none
  unfolding lookup
  lookup-drop-none i zero d h = h
  lookup-drop-none i (suc n) [] h = h
  lookup-drop-none i (suc n) ((j, t) ∷ d) h = lookup-drop-none i n d (ground arith)

  lookup-drop_expired-none :
      (i : UpdateId) (ttl now : ℕ) (d : Dict UpdateId ℕ)
      → lookup i d ≡ none
      → lookup i (drop_expired ttl now d) ≡ none
  unfolding lookup drop_expired
  lookup-drop_expired-none i ttl now [] h = h
  lookup-drop_expired-none i ttl now ((j, t) ∷ d) h =
      ground (arith, lookup-drop_expired-none i ttl now d)

  pub lookup-prune-none :
      (i : UpdateId) (m ttl now : ℕ) (d : Dict UpdateId ℕ)
      → lookup i d ≡ none
      → lookup i (prune m ttl now d) ≡ none
  unfolding prune
  lookup-prune-none i m ttl now d h =
      lookup-drop-none i _ (drop_expired ttl now d) (lookup-drop_expired-none i ttl now d h)

  pub contains-discard : (i : UpdateId) (xs : List UpdateId) → contains (discard i xs) i ≡ false
  unfolding discard
  contains-discard i [] = refl
  contains-discard i (j ∷ xs) = ground (arith, contains-discard i xs)

  -- A failed update is not taken for completed nor for one in flight: the next request for it
  -- starts a handler again, at any later reading of the clock.
  pub begin_after_fail :
      (u : Deduplicator UpdateId) (i : UpdateId) (now later : ℕ)
      → (begin u i now).0 ≡ new
      → (begin (fail (begin u i now).1 i) i later).0 ≡ new
  unfolding begin fail
  begin_after_fail u i now later h =
      let d = prune u.max_items u.ttl now u.done in
      ground
        (arith, lookup-prune-none i u.max_items u.ttl later d, contains-discard i (i ∷ u.running))

  -- While the handler of an update runs, every other request for it is told so.
  pub begin_while_inflight :
      (u : Deduplicator UpdateId) (i : UpdateId) (now later : ℕ)
      → (begin u i now).0 ≡ new
      → (begin (begin u i now).1 i later).0 ≡ inflight
  unfolding begin
  begin_while_inflight u i now later h =
      let d = prune u.max_items u.ttl now u.done in
      ground (arith, lookup-prune-none i u.max_items u.ttl later d)

  drop-snoc :
      (n : ℕ) (d : Dict UpdateId ℕ) (x : UpdateId × ℕ)
      → n ≤ length d
      → drop n (d ++ (x ∷ [])) ≡ drop n d ++ (x ∷ [])
  drop-snoc zero d x h = refl
  drop-snoc (suc n) [] x h = absurd (omega arith)
  drop-snoc (suc n) (y ∷ d) x h = drop-snoc n d x (omega arith)

  drop_expired-snoc :
      (ttl now : ℕ) (d : Dict UpdateId ℕ) (i : UpdateId) (t : ℕ)
      → leb (now - t) ttl ≡ true
      → drop_expired ttl now (d ++ ((i, t) ∷ [])) ≡ drop_expired ttl now d ++ ((i, t) ∷ [])
  unfolding drop_expired
  drop_expired-snoc ttl now [] i t h = ground (arith, h)
  drop_expired-snoc ttl now ((j, s) ∷ d) i t h = ground (arith, drop_expired-snoc ttl now d i t h)

  -- Pruning keeps the newest entry while it is young.
  prune-snoc :
      (m ttl now : ℕ) (d : Dict UpdateId ℕ) (i : UpdateId) (t : ℕ)
      → 0 < m
      → leb (now - t) ttl ≡ true
      → prune m ttl now (d ++ ((i, t) ∷ []))
        ≡ drop (length (drop_expired ttl now d) + 1 - m) (drop_expired ttl now d) ++ ((i, t) ∷ [])
  unfolding prune
  prune-snoc m ttl now d i t p h =
      rw (drop_expired-snoc ttl now d i t h, length-append)
        (drop-snoc (length (drop_expired ttl now d) + 1 - m) (drop_expired ttl now d) (i, t)
          (omega arith))

  lookup-snoc :
      (i : UpdateId) (t : ℕ) (d : Dict UpdateId ℕ)
      → lookup i d ≡ none
      → lookup i (d ++ ((i, t) ∷ [])) ≡ some t
  unfolding lookup
  lookup-snoc i t [] h = ground arith
  lookup-snoc i t ((j, s) ∷ d) h = ground (arith, lookup-snoc i t d)

  move_to_end-insert :
      (i : UpdateId) (t : ℕ) (d : Dict UpdateId ℕ)
      → move_to_end i (insert i t d) ≡ erase i (insert i t d) ++ ((i, t) ∷ [])
  unfolding move_to_end
  move_to_end-insert i t d = ground (arith, lookup-insert i i t d)

  lookup-prune-snoc :
      (m ttl now : ℕ) (d : Dict UpdateId ℕ) (i : UpdateId) (t : ℕ)
      → 0 < m
      → leb (now - t) ttl ≡ true
      → lookup i d ≡ none
      → lookup i (prune m ttl now (d ++ ((i, t) ∷ []))) ≡ some t
  lookup-prune-snoc m ttl now d i t p h absent =
      rw (prune-snoc m ttl now d i t p h)
        (lookup-snoc i t _ (lookup-drop-none i _ _ (lookup-drop_expired-none i ttl now d absent)))

  -- An update that has been completed is answered as completed, and starts no handler, while its
  -- entry is not older than the time to live, if the record has room for one update at all.
  pub begin_after_complete :
      (u : Deduplicator UpdateId) (i : UpdateId) (now now' later : ℕ)
      → 0 < u.max_items
      → now' ≤ now + u.ttl
      → later ≤ now + u.ttl
      → (begin (complete u i now now') i later).0 ≡ completed
  unfolding begin complete
  begin_after_complete u i now now' later m p q =
      let d = erase i (insert i now u.done) in
      let absent : lookup i d ≡ none = ground (arith, lookup-erase i i (insert i now u.done)) in
      let kept =
        lookup-drop-none i (length (drop_expired u.ttl now' d) + 1 - u.max_items) _
          (lookup-drop_expired-none i u.ttl now' d absent) in
      rw
        (
          move_to_end-insert i now u.done,
          prune-snoc u.max_items u.ttl now' d i now m (ground arith),
        )
        (ground (arith, lookup-prune-snoc u.max_items u.ttl later _ i now m (ground arith) kept))
