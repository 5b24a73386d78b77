-- ===== src/Database/Idempotency/Laws.antt =====
-- What the answers for one event are after the calls for it.
use vpsssssskjwjw.Prelude.{
  ℕ, ◌+◌, ◌≡◌, refl, true, Option, none, some, List, [], ◌∷◌, ◌++◌, Text, text_eq, leb, ltb,
  if◌then◌else◌, arith,
}
use vpsssssskjwjw.Database.Idempotency.{
  inflight, completed, Answer, new, old, Row, Database, is_at, select, delete, update_completed,
  idempotency_begin, idempotency_complete, idempotency_fail,
}

select-delete_self : (s k : Text) (rows : List Row) → select s k (delete s k rows) ≡ none
unfolding select delete
select-delete_self s k [] = refl
select-delete_self s k (r ∷ rows) = ground (arith, select-delete_self s k rows)

select-append :
    (s k : Text) (row : Row) (rows : List Row)
    → select s k rows ≡ none
    → is_at s k row ≡ true
    → select s k (rows ++ (row ∷ [])) ≡ some row
unfolding select
select-append s k row [] h e = ground (arith, e)
select-append s k row (r ∷ rows) h e = ground (arith, select-append s k row rows, h, e)

select-update_completed :
    (s k : Text) (expires : ℕ) (r : Row) (rows : List Row)
    → select s k rows ≡ some r
    → select s k (update_completed s k expires rows)
      ≡ some (record r { state = completed; expires_at = expires })
unfolding select update_completed
select-update_completed s k expires r [] h = absurd (cc h)
select-update_completed s k expires r (q ∷ rows) h =
    ground (arith, select-update_completed s k expires r rows, h)

-- The answer to an event whose row is given.
answer_row : Option Row → ℕ → Answer
answer_row none now = new
answer_row (some r) now = if leb r.expires_at now then new else old r.state

begin-answer :
    (s k : Text) (ttl now : ℕ) (db : Database)
    → db.enabled ≡ true
    → (idempotency_begin s k ttl now db).0 ≡ answer_row (select s k db.rows) now
unfolding idempotency_begin answer_row
begin-answer s k ttl now db e = ground (arith, e)

begin-select :
    (s k : Text) (ttl now : ℕ) (db : Database)
    → db.enabled ≡ true
    → (idempotency_begin s k ttl now db).0 ≡ new
    → ((idempotency_begin s k ttl now db).1.enabled ≡ true)
      × (select s k (idempotency_begin s k ttl now db).1.rows
          ≡ some (record { scope = s; event_key = k; state = inflight; expires_at = now + ttl }))
unfolding idempotency_begin
begin-select s k ttl now db e h =
    let row : Row = record { scope = s; event_key = k; state = inflight; expires_at = now + ttl } in
    let kept =
      select-append s k row (delete s k db.rows) (select-delete_self s k db.rows) (ground arith) in
    ground (arith, e, h, kept)

pool-begin :
    (s k : Text) (ttl now : ℕ) (db : Database)
    → db.enabled ≡ true
    → (idempotency_begin s k ttl now db).1.pool ≡ true
unfolding idempotency_begin
pool-begin s k ttl now db e = ground (arith, e)

-- With a database: after a first answer `new`, the same event is in flight until its time to live is over, and is
-- new again from then on.
pub idempotency_begin_twice :
    (scope event_key : Text) (ttl ttl' now later : ℕ) (db : Database)
    → db.enabled ≡ true
    → (idempotency_begin scope event_key ttl now db).0 ≡ new
    → (idempotency_begin scope event_key ttl' later
        (idempotency_begin scope event_key ttl now db).1).0
      ≡ (if ltb later (now + ttl) then old inflight else new)
unfolding answer_row
idempotency_begin_twice scope event_key ttl ttl' now later db e h =
    let (on, row) = begin-select scope event_key ttl now db e h in
    ground (
      arith,
      on,
      row,
      begin-answer scope event_key ttl' later (idempotency_begin scope event_key ttl now db).1 on,
    )

-- With a database: an event that was new, begun and then completed at `done` is answered as completed until the time to
-- live of the completion is over, whatever that of the beginning was, and is new from then on.
pub idempotency_begin_after_complete :
    (scope event_key : Text) (ttl ttl' ttl'' now done later : ℕ) (db : Database)
    → db.enabled ≡ true
    → (idempotency_begin scope event_key ttl now db).0 ≡ new
    → let db' =
        idempotency_complete scope event_key ttl' done
          (idempotency_begin scope event_key ttl now db).1 in
      (idempotency_begin scope event_key ttl'' later db').0
      ≡ (if ltb later (done + ttl') then old completed else new)
unfolding answer_row idempotency_complete
idempotency_begin_after_complete scope event_key ttl ttl' ttl'' now done later db e h =
    let db₁ = (idempotency_begin scope event_key ttl now db).1 in
    let db₂ = idempotency_complete scope event_key ttl' done db₁ in
    let (on, row) = begin-select scope event_key ttl now db e h in
    ground (
      arith,
      on,
      row,
      select-update_completed scope event_key (done + ttl') _ db₁.rows row,
      begin-answer scope event_key ttl'' later db₂ (ground (arith, on)),
    )

-- An event that was begun and then failed is new at once.
pub idempotency_begin_after_fail :
    (scope event_key : Text) (ttl ttl' now later : ℕ) (db : Database)
    → db.enabled ≡ true
    → (idempotency_begin scope event_key ttl now db).0 ≡ new
    → let db' = idempotency_fail scope event_key (idempotency_begin scope event_key ttl now db).1 in
      (idempotency_begin scope event_key ttl' later db').0 ≡ new
unfolding answer_row idempotency_fail
idempotency_begin_after_fail scope event_key ttl ttl' now later db e h =
    let db₁ = (idempotency_begin scope event_key ttl now db).1 in
    let (on, row) = begin-select scope event_key ttl now db e h in
    ground (
      arith,
      on,
      pool-begin scope event_key ttl now db e,
      select-delete_self scope event_key db₁.rows,
      begin-answer scope event_key ttl' later (idempotency_fail scope event_key db₁)
          (ground (arith, on)),
    )
