-- ===== src/Database/Jobs/Enqueue.antt =====
-- An event that is delivered twice is one job.
use vpsssssskjwjw.Prelude.{
  ℕ, ◌≡◌, ◌≢◌, refl, Option-cases, inl, inr, true, none, some, List, [], ◌∷◌, ◌++◌, Text, text_eq,
  arith, take,
}
use vpsssssskjwjw.Database.Jobs.{Job, Database, enqueue_job, insert_job, find_key, clamp}

module _ {P : Type 0} where
  find_key-append :
      (key : Text) (row : Job P) (jobs : List (Job P))
      → find_key key jobs ≡ none
      → row.unique_key ≡ key
      → find_key key (jobs ++ (row ∷ [])) ≡ some row
  unfolding find_key
  find_key-append key row [] h e = ground (arith, e)
  find_key-append key row (j ∷ jobs) h e = ground (arith, find_key-append key row jobs, h, e)

  insert_job_found :
      (key kind : Text) (payload : P) (m now : ℕ) (db : Database P)
      → find_key key (insert_job key kind payload m now db).1.jobs
        ≡ some (insert_job key kind payload m now db).0
  unfolding insert_job
  insert_job_found key kind payload m now db = elim (Option-cases (find_key key db.jobs)) [
    | inr (old, e) ↦ rw (e, insert_job) e
    | inl e ↦ rw (e, insert_job) (find_key-append key _ db.jobs e refl)
  ]

  insert_job_again :
      (key kind : Text) (payload : P) (m now : ℕ) (db : Database P) (row : Job P)
      → find_key key db.jobs ≡ some row
      → ((insert_job key kind payload m now db).0 ≡ row)
        × ((insert_job key kind payload m now db).1.jobs ≡ db.jobs)
  unfolding insert_job
  insert_job_again key kind payload m now db row h = ground (arith, h)

  enabled-insert_job :
      (key kind : Text) (payload : P) (m now : ℕ) (db : Database P)
      → (insert_job key kind payload m now db).1.enabled ≡ db.enabled
  unfolding insert_job
  enabled-insert_job key kind payload m now db = ground arith

  -- With a database, a second `enqueue_job` with the same unique key, whatever its kind, payload and limit, returns
  -- the row of the first and adds no row.
  pub enqueue_job_twice :
      (key kind kind' : Text) (payload payload' : P) (m m' now now' : ℕ) (db : Database P)
      → db.enabled ≡ true
      → let first = enqueue_job key kind payload m now db in
        let second = enqueue_job key kind' payload' m' now' first.1 in
        (second.0 ≡ first.0) × (second.0 ≢ none) × (second.1.jobs ≡ first.1.jobs)
  unfolding enqueue_job
  enqueue_job_twice key kind kind' payload payload' m m' now now' db e =
      let first = insert_job (take 200 key) (take 80 kind) payload (clamp 1 20 m) now db in
      ground (
        arith,
        e,
        enabled-insert_job (take 200 key) (take 80 kind) payload (clamp 1 20 m) now db,
        insert_job_again (take 200 key) (take 80 kind') payload' (clamp 1 20 m') now' first.1
            first.0 (insert_job_found (take 200 key) (take 80 kind) payload (clamp 1 20 m) now db),
      )
