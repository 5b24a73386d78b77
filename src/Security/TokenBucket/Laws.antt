-- ===== src/Security/TokenBucket/Laws.antt =====
-- How much a bucket can let through.
use vpsssssskjwjw.Prelude.{
  ℕ, ◌+◌, ◌-◌, ◌*◌, ◌≤◌, ◌≡◌, sym, ap, ◌∙◌, List, [], ◌∷◌, arith, if◌then◌else◌,
}
use vpsssssskjwjw.Security.TokenBucket.{TokenBucket, unit, allow}

-- Requests at the given clock readings, each of cost one token; the number that was let through.
unfoldable pub run : TokenBucket → List ℕ → ℕ × TokenBucket
run b [] = (0, b)
run b (now ∷ times) =
    let (admitted, b') = allow b unit now in
    let (count, b'') = run b' times in ((if admitted then 1 else 0) + count, b'')

-- The readings of a clock that stands at `t` or later and never goes back.
abbrev pub IsMonotonic : ℕ → List ℕ → Type 0
IsMonotonic t [] = Unit
IsMonotonic t (now ∷ times) = (t ≤ now) × IsMonotonic now times

-- A step neither overfills the bucket nor lets a request through that the level does not cover.
-- The bucket's level never exceeds its capacity, whether or not the request is let through.
pub tokens-allow-le :
    (b : TokenBucket) (cost now : ℕ) → (allow b cost now).1.tokens ≤ (allow b cost now).1.capacity
unfolding allow
tokens-allow-le b cost now = ground arith

allow_cost :
    (b : TokenBucket) (now : ℕ)
    → (if (allow b unit now).0 then 1 else 0) * unit + (allow b unit now).1.tokens
      ≤ b.tokens + (now - b.updated) * b.rate_per_minute
unfolding allow
allow_cost b now = ground arith

updated-allow : (b : TokenBucket) (cost now : ℕ) → (allow b cost now).1.updated ≡ now
unfolding allow
updated-allow b cost now = ground arith

rate-allow :
    (b : TokenBucket) (cost now : ℕ) → (allow b cost now).1.rate_per_minute ≡ b.rate_per_minute
unfolding allow
rate-allow b cost now = ground arith

elapsed_split : (u n f r : ℕ) → u ≤ n → n ≤ f → (f - n) * r + (n - u) * r ≡ (f - u) * r
elapsed_split u n f r h k =
    sym (mul_add_right (f - n) (n - u) r) ∙ ap (λ (t : ℕ). t * r) (omega arith)
  where
    mul_add_right : (a b c : ℕ) → (a + b) * c ≡ a * c + b * c
    mul_add_right a b c = omega arith

run_updated :
    (b : TokenBucket) (times : List ℕ)
    → IsMonotonic b.updated times
    → b.updated ≤ (run b times).1.updated
unfolding run
run_updated b [] h = omega arith
run_updated b (now ∷ times) h = omega (
  arith,
  h.0,
  updated-allow b unit now,
  run_updated (allow b unit now).1 times (rw updated-allow h.1),
)

-- Over any requests on a clock that never goes back the tokens taken, and those that are left, come from the level at the start
-- and from the time that has passed.
pub run_rate :
    (b : TokenBucket) (times : List ℕ)
    → IsMonotonic b.updated times
    → (run b times).0 * unit + (run b times).1.tokens
      ≤ b.tokens + ((run b times).1.updated - b.updated) * b.rate_per_minute
unfolding run
run_rate b [] h = omega arith
run_rate b (now ∷ times) h =
    let b' = (allow b unit now).1 in
    let m : IsMonotonic b'.updated times = rw updated-allow h.1 in
    let late : now ≤ (run b' times).1.updated =
      omega (arith, updated-allow b unit now, run_updated b' times m) in
    let rest : (run b' times).0 * unit + (run b' times).1.tokens
        ≤ b'.tokens + ((run b' times).1.updated - now) * b.rate_per_minute =
      rw (updated-allow, rate-allow) at (run_rate b' times m) in
    omega (
      arith,
      rest,
      allow_cost b now,
      elapsed_split b.updated now (run b' times).1.updated b.rate_per_minute h.0 late,
    )
