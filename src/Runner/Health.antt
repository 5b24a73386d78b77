-- ===== src/Runner/Health.antt =====
-- What `wait_healthy` promises.
use vpsssssskjwjw.Prelude.{
  ℕ, ◌-◌, ◌≤◌, ◌<◌, ◌≡◌, ◌⊎◌, true, false, Option, none, some, List, [], ◌∷◌, arith, inl, inr,
}
use vpsssssskjwjw.Runner.{Sample, wait_healthy}

abbrev pub IsUp : ℕ → Sample → Type 0
IsUp deadline r = (r.checked < deadline) × (r.process ≡ true) × (r.circuit_open ≡ false)

-- The process is up in every round until one that lies `grace` after `since`.
pub data Steady (grace deadline since : ℕ) : List Sample → Type 0 where
  reached :
      {r : Sample} {samples : List Sample}
      → IsUp deadline r
      → grace ≤ r.read - since
      → Steady grace deadline since (r ∷ samples)
  further :
      {r : Sample} {samples : List Sample}
      → IsUp deadline r
      → Steady grace deadline since samples
      → Steady grace deadline since (r ∷ samples)

-- From some round on the process is up without a break for `grace`, before the deadline.
pub data BecomesSteady (grace deadline : ℕ) : List Sample → Type 0 where
  starts :
      {r : Sample} {samples : List Sample}
      → IsUp deadline r
      → Steady grace deadline r.read samples
      → BecomesSteady grace deadline (r ∷ samples)
  later :
      {r : Sample} {samples : List Sample}
      → BecomesSteady grace deadline samples
      → BecomesSteady grace deadline (r ∷ samples)

abbrev Promised : ℕ → ℕ → Option ℕ → List Sample → Type 0
Promised grace deadline none samples = BecomesSteady grace deadline samples
Promised grace deadline (some t) samples =
    Steady grace deadline t samples ⊎ BecomesSteady grace deadline samples

-- What the first round tells when the answer is yes.
first_round :
    (grace deadline : ℕ) (r : Sample) (samples : List Sample)
    → wait_healthy grace deadline none (r ∷ samples) ≡ true
    → (IsUp deadline r × (wait_healthy grace deadline (some r.read) samples ≡ true))
      ⊎ (wait_healthy grace deadline none samples ≡ true)
unfolding wait_healthy
first_round grace deadline r samples h = ground (arith, h)

next_round :
    (grace deadline t : ℕ) (r : Sample) (samples : List Sample)
    → wait_healthy grace deadline (some t) (r ∷ samples) ≡ true
    → (IsUp deadline r
        × ((grace ≤ r.read - t) ⊎ (wait_healthy grace deadline (some t) samples ≡ true)))
      ⊎ (wait_healthy grace deadline none samples ≡ true)
unfolding wait_healthy
next_round grace deadline t r samples h = ground (arith, h)

lift_later :
    {grace deadline t : ℕ} {r : Sample} {samples : List Sample}
    → IsUp deadline r
    → Promised grace deadline (some t) samples
    → Promised grace deadline (some t) (r ∷ samples)
lift_later up (inl steady) = inl (further up steady)
lift_later up (inr becomes) = inr (later becomes)

lift_first :
    {grace deadline : ℕ} {r : Sample} {samples : List Sample}
    → IsUp deadline r
    → Promised grace deadline (some r.read) samples
    → BecomesSteady grace deadline (r ∷ samples)
lift_first up (inl steady) = starts up steady
lift_first up (inr becomes) = later becomes

wait_healthy-Promised :
    (grace deadline : ℕ) (since : Option ℕ) (samples : List Sample)
    → wait_healthy grace deadline since samples ≡ true
    → Promised grace deadline since samples
wait_healthy-Promised grace deadline since [] h = absurd (unfold wait_healthy in cc h)
wait_healthy-Promised grace deadline none (r ∷ samples) h =
    elim (first_round grace deadline r samples h) [
      | inl (up, k) ↦ lift_first up (wait_healthy-Promised grace deadline (some r.read) samples k)
      | inr k ↦ later (wait_healthy-Promised grace deadline none samples k)
    ]
wait_healthy-Promised grace deadline (some t) (r ∷ samples) h =
    elim (next_round grace deadline t r samples h) [
      | inl (up, inl long) ↦ inl (reached up long)
      | inl (up, inr k) ↦ lift_later up (wait_healthy-Promised grace deadline (some t) samples k)
      | inr k ↦ inr (later (wait_healthy-Promised grace deadline none samples k))
    ]

-- `wait_healthy` from its start answers yes only if, before the deadline, the process was seen up with its circuit
-- closed in every round over a stretch of at least the grace period.
pub wait_healthy_sound :
    (grace deadline : ℕ) (samples : List Sample)
    → wait_healthy grace deadline none samples ≡ true
    → BecomesSteady grace deadline samples
wait_healthy_sound grace deadline samples h = wait_healthy-Promised grace deadline none samples h
