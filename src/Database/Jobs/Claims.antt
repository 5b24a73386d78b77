-- ===== src/Database/Jobs/Claims.antt =====
-- Which job a claim hands out, and that no job runs past its lease unnoticed.
use vpsssssskjwjw.Prelude.{
  ℕ, ◌≡◌, refl, ◌⊎◌, ap, Bool-cases, inl, inr, true, false, none, some, List, [], ◌∷◌, Text,
  text_eq, nat_eq, map, All, arith,
}
use vpsssssskjwjw.Database.Jobs.{
  Job, running, Database, claim_job, claim_first, claimed, is_ready, sweep_row, is_expired, clamp,
}

module _ {P : Type 0} where
  -- The row `c` has become `claimed now j`, the rows before it were not ready, and no other changed.
  pub data Claims (kinds : List Text) (now : ℕ) : List (Job P) → Job P → List (Job P) → Type 0 where
    here :
        {j : Job P} {jobs : List (Job P)}
        → is_ready kinds now j ≡ true
        → Claims kinds now (j ∷ jobs) j (claimed now j ∷ jobs)
    there :
        {j i : Job P} {jobs jobs' : List (Job P)}
        → is_ready kinds now j ≡ false
        → Claims kinds now jobs i jobs'
        → Claims kinds now (j ∷ jobs) i (j ∷ jobs')

  -- A claim hands out the first row that is ready, as the row reads after the update, and changes
  -- that row alone; it hands out nothing, and changes nothing, only if no row is ready.
  pub claim_first_cases :
      (kinds : List Text) (now : ℕ) (jobs : List (Job P))
      → ((j : Job P) × ((claim_first kinds now jobs).0 ≡ some (claimed now j))
          × Claims kinds now jobs j (claim_first kinds now jobs).1)
        ⊎ (((claim_first kinds now jobs).0 ≡ none)
            × ((claim_first kinds now jobs).1 ≡ jobs)
            × All (λ j. is_ready kinds now j ≡ false) jobs)
  unfolding claim_first
  claim_first_cases kinds now [] = inr (refl, refl, tt)
  claim_first_cases kinds now (j ∷ jobs) = elim (Bool-cases (is_ready kinds now j)) [
    | inl r ↦ rw r (inl (j, refl, here r))
    | inr r ↦ elim (claim_first_cases kinds now jobs) [
      | inl (i, e, c) ↦ rw r (inl (i, e, there r c))
      | inr (e, same, all) ↦ rw r (inr (e, ap (λ (t : List (Job P)). j ∷ t) same, (refl, all)))
    ]
  ]

  -- Running, and locked for longer than the lease.
  abbrev pub IsStuck : ℕ → ℕ → Job P → Type 0
  IsStuck lease now j = (j.state ≡ running) × (is_expired lease now j.locked_at ≡ true)

  sweep_row-not-IsStuck : (lease now : ℕ) (j : Job P) → ¬ IsStuck lease now (sweep_row lease now j)
  unfolding sweep_row
  sweep_row-not-IsStuck lease now j h = ground (arith, h.0, h.1)

  claimed-not-IsStuck : (lease now : ℕ) (j : Job P) → ¬ IsStuck lease now (claimed now j)
  unfolding claimed is_expired
  claimed-not-IsStuck lease now j h = ground (arith, h.1)

  swept-not-IsStuck :
      (lease now : ℕ) (jobs : List (Job P))
      → All (λ j. ¬ IsStuck lease now j) (map (sweep_row lease now) jobs)
  swept-not-IsStuck lease now [] = tt
  swept-not-IsStuck lease now (j ∷ jobs) =
      (sweep_row-not-IsStuck lease now j, swept-not-IsStuck lease now jobs)

  claim_first-not-IsStuck :
      (kinds : List Text) (lease now : ℕ) (jobs : List (Job P))
      → All (λ j. ¬ IsStuck lease now j) (claim_first kinds now (map (sweep_row lease now) jobs)).1
  unfolding claim_first
  claim_first-not-IsStuck kinds lease now [] = tt
  claim_first-not-IsStuck kinds lease now (j ∷ jobs) =
      elim (Bool-cases (is_ready kinds now (sweep_row lease now j))) [
        | inl r ↦ rw r (
          claimed-not-IsStuck lease now (sweep_row lease now j),
          swept-not-IsStuck lease now jobs,
        )
        | inr r ↦
            rw r (sweep_row-not-IsStuck lease now j, claim_first-not-IsStuck kinds lease now jobs)
      ]

  -- After a claim of at least one kind that reaches the table no row has been running past the lease.
  pub claim_job-not-IsStuck :
      (k : Text) (kinds : List Text) (lease_seconds now : ℕ) (db : Database P)
      → db.enabled ≡ true
      → All
          (λ j. ¬ IsStuck (clamp 30 3600 lease_seconds) now j)
          (claim_job (k ∷ kinds) lease_seconds now db).1.jobs
  unfolding claim_job
  claim_job-not-IsStuck k kinds lease_seconds now db e =
      rw e (claim_first-not-IsStuck (k ∷ kinds) (clamp 30 3600 lease_seconds) now db.jobs)
