-- ===== src/Telegram/Dedup/Bounds.antt =====
-- The record of completed updates stays bounded.
use vpsssssskjwjw.Prelude.{
  ℕ, zero, suc, ◌+◌, ◌-◌, ◌≤◌, ◌≡◌, List, [], ◌∷◌, some, Eq, length, drop, arith, length-append,
  Option-cases, inl, inr,
}
use vpsssssskjwjw.Prelude.Dict.{Dict, lookup, erase}
use vpsssssskjwjw.Telegram.Dedup.{Deduplicator, drop_expired, prune, move_to_end, begin, complete}

length-drop {ℓ} : {A : Type ℓ} (n : ℕ) (xs : List A) → length (drop n xs) ≡ length xs - n
length-drop zero xs = omega arith
length-drop (suc n) [] = omega arith
length-drop (suc n) (x ∷ xs) = omega (arith, length-drop n xs)

length-prune-le :
    {UpdateId : Type 0} (m ttl now : ℕ) (d : Dict UpdateId ℕ) → length (prune m ttl now d) ≤ m
unfolding prune
length-prune-le m ttl now d =
    omega (arith, length-drop (length (drop_expired ttl now d) - m) (drop_expired ttl now d))

module _ {UpdateId : Type 0} ⦃e : Eq UpdateId⦄ where
  length-erase-le : (i : UpdateId) (d : Dict UpdateId ℕ) → length (erase i d) ≤ length d
  unfolding erase
  length-erase-le i [] = omega arith
  length-erase-le i ((j, t) ∷ d) = ground (arith, length-erase-le i d)

  length-erase-lt :
      (i : UpdateId) (ts : ℕ) (d : Dict UpdateId ℕ)
      → lookup i d ≡ some ts
      → length (erase i d) + 1 ≤ length d
  unfolding erase lookup
  length-erase-lt i ts [] h = absurd (cc h)
  length-erase-lt i ts ((j, t) ∷ d) h = ground (arith, length-erase-le i d, length-erase-lt i ts d)

  length-move_to_end-le : (i : UpdateId) (d : Dict UpdateId ℕ) → length (move_to_end i d) ≤ length d
  unfolding move_to_end
  length-move_to_end-le i d = elim (Option-cases (lookup i d)) [
    | inl absent ↦ ground (arith, absent)
    | inr (ts, found) ↦
        ground
          (arith, found, length-erase-lt i ts d found, length-append (erase i d) ((i, ts) ∷ []))
  ]

  -- Whatever it held before, the record holds at most `max_items` completed updates after a request
  -- has been looked up and after one has been completed.
  pub completed_bounded :
      (u : Deduplicator UpdateId) (i : UpdateId) (now now' : ℕ)
      → (length (begin u i now).1.done ≤ u.max_items)
        × (length (complete u i now now').done ≤ u.max_items)
  unfolding begin complete
  completed_bounded u i now now' =
      let done = prune u.max_items u.ttl now u.done in
      let small = length-prune-le u.max_items u.ttl now u.done in
      (
        ground (arith, small, length-move_to_end-le i done),
        length-prune-le u.max_items u.ttl now' _,
      )
