-- ===== src/Database/Idempotency/Ledger.antt =====
-- The abstract view of the idempotency records of src/titanbox/database.py: a partial map from events
-- to their state and expiry.
use vpsssssskjwjw.Prelude.{
  ℕ, ◌+◌, ◌≤◌, ◌≡◌, refl, true, ◌&&◌, Option, none, some, List, [], ◌∷◌, ◌++◌, Text, text_eq,
  nat_eq, ◌==◌, leb, if◌then◌else◌, arith,
}
use vpsssssskjwjw.Database.Idempotency.{
  State, inflight, completed, Answer, new, old, Row, Database, is_at, select, delete,
  update_completed, delete_expired, idempotency_begin, idempotency_complete, idempotency_fail,
  cleanup_expired_idempotency,
}

-- How many rows an event has.
unfoldable pub rows_at : Text → Text → List Row → ℕ
rows_at s k [] = 0
rows_at s k (r ∷ rows) = (if is_at s k r then 1 else 0) + rows_at s k rows

select-delete :
    (s k a b : Text) (rows : List Row)
    → select a b (delete s k rows) ≡ (if (s == a) && (k == b) then none else select a b rows)
unfolding select delete
select-delete s k a b [] = ground arith
select-delete s k a b (r ∷ rows) = ground (arith, select-delete s k a b rows)

abbrev or_else : Option Row → Option Row → Option Row
or_else none o = o
or_else (some r) o = some r

select-append :
    (a b : Text) (row : Row) (rows : List Row)
    → select a b (rows ++ (row ∷ []))
      ≡ or_else (select a b rows) (if is_at a b row then some row else none)
unfolding select
select-append a b row [] = ground arith
select-append a b row (r ∷ rows) = ground (arith, select-append a b row rows)

abbrev completing : Text → Text → ℕ → Text → Text → Option Row → Option Row
completing s k expires a b none = none
completing s k expires a b (some r) =
    if (s == a) && (k == b)
    then some (record r { state = completed; expires_at = expires })
    else some r

select-update_completed :
    (s k a b : Text) (expires : ℕ) (rows : List Row)
    → select a b (update_completed s k expires rows) ≡ completing s k expires a b (select a b rows)
unfolding select update_completed
select-update_completed s k a b expires [] = refl
select-update_completed s k a b expires (r ∷ rows) =
    ground (arith, select-update_completed s k a b expires rows)

abbrev living : ℕ → Option Row → Option Row
living now none = none
living now (some r) = if leb r.expires_at now then none else some r

select-none : (a b : Text) (rows : List Row) → rows_at a b rows ≡ 0 → select a b rows ≡ none
unfolding select rows_at
select-none a b [] h = refl
select-none a b (r ∷ rows) h = ground (arith, h, select-none a b rows)

rows_at-delete_expired :
    (a b : Text) (now : ℕ) (rows : List Row)
    → rows_at a b (delete_expired now rows) ≤ rows_at a b rows
unfolding rows_at delete_expired
rows_at-delete_expired a b now [] = omega arith
rows_at-delete_expired a b now (r ∷ rows) = ground (arith, rows_at-delete_expired a b now rows)

select-delete_expired :
    (a b : Text) (now : ℕ) (rows : List Row)
    → rows_at a b rows ≤ 1
    → select a b (delete_expired now rows) ≡ living now (select a b rows)
unfolding select rows_at delete_expired
select-delete_expired a b now [] h = refl
select-delete_expired a b now (r ∷ rows) h = ground (
  arith,
  h,
  select-delete_expired a b now rows,
  rows_at-delete_expired a b now rows,
  select-none a b (delete_expired now rows),
)

-- An event's state and when it expires.
abbrev pub Ledger : Type 0
Ledger = Text → Text → Option (State × ℕ)

abbrev entry : Option Row → Option (State × ℕ)
entry none = none
entry (some r) = some (r.state, r.expires_at)

abbrev pub ledger_of : List Row → Ledger
ledger_of rows s k = entry (select s k rows)

abbrev pub record_entry : Text → Text → Option (State × ℕ) → Ledger → Ledger
record_entry s k e ledger a b = if (s == a) && (k == b) then e else ledger a b

-- What a beginning answers, and the ledger after it.
abbrev pub begin_entry : Text → Text → ℕ → ℕ → Option (State × ℕ) → Ledger → Answer × Ledger
begin_entry s k ttl now none ledger = (new, record_entry s k (some (inflight, now + ttl)) ledger)
begin_entry s k ttl now (some (state, expires)) ledger =
    if leb expires now
    then (new, record_entry s k (some (inflight, now + ttl)) ledger)
    else (old state, ledger)

abbrev pub complete_entry : ℕ → Option (State × ℕ) → Option (State × ℕ)
complete_entry expires none = none
complete_entry expires (some e) = some (completed, expires)

abbrev pub live_entry : ℕ → Option (State × ℕ) → Option (State × ℕ)
live_entry now none = none
live_entry now (some (state, expires)) = if leb expires now then none else some (state, expires)

pub data Call : Type 0 where
  begin : Text → Text → ℕ → ℕ → Call
  complete : Text → Text → ℕ → ℕ → Call
  fail : Text → Text → Call
  cleanup : ℕ → Call

-- What a call promises: only a beginning has an answer here.
unfoldable pub promise : Call → Ledger → Option Answer × Ledger
promise (begin s k ttl now) ledger =
    let (answer, after) = begin_entry s k ttl now (ledger s k) ledger in (some answer, after)
promise (complete s k ttl now) ledger =
    (none, record_entry s k (complete_entry (now + ttl) (ledger s k)) ledger)
promise (fail s k) ledger = (none, record_entry s k none ledger)
promise (cleanup now) ledger = (none, λ s k. live_entry now (ledger s k))

unfoldable pub call : Call → Database → Option Answer × Database
call (begin s k ttl now) db =
    let (answer, after) = idempotency_begin s k ttl now db in (some answer, after)
call (complete s k ttl now) db = (none, idempotency_complete s k ttl now db)
call (fail s k) db = (none, idempotency_fail s k db)
call (cleanup now) db = (none, (cleanup_expired_idempotency now db).1)

-- The table is in use, and has its primary key.
pub record IsTable (db : Database) : Type 0 where
  pub enabled : db.enabled ≡ true
  pub pool : db.pool ≡ true
  pub keyed : (s k : Text) → rows_at s k db.rows ≤ 1

rows_at-delete :
    (s k a b : Text) (rows : List Row)
    → rows_at a b (delete s k rows) ≡ (if (s == a) && (k == b) then 0 else rows_at a b rows)
unfolding rows_at delete
rows_at-delete s k a b [] = ground arith
rows_at-delete s k a b (r ∷ rows) = ground (arith, rows_at-delete s k a b rows)

rows_at-append :
    (a b : Text) (row : Row) (rows : List Row)
    → rows_at a b (rows ++ (row ∷ [])) ≡ rows_at a b rows + (if is_at a b row then 1 else 0)
unfolding rows_at
rows_at-append a b row [] = ground arith
rows_at-append a b row (r ∷ rows) = ground (arith, rows_at-append a b row rows)

rows_at-update_completed :
    (s k a b : Text) (expires : ℕ) (rows : List Row)
    → rows_at a b (update_completed s k expires rows) ≡ rows_at a b rows
unfolding rows_at update_completed
rows_at-update_completed s k a b expires [] = refl
rows_at-update_completed s k a b expires (r ∷ rows) =
    ground (arith, rows_at-update_completed s k a b expires rows)

abbrev begun : Text → Text → ℕ → Row
begun s k expires = record { scope = s; event_key = k; state = inflight; expires_at = expires }

call-IsTable : (c : Call) (db : Database) → IsTable db → IsTable (call c db).1
unfolding call idempotency_begin idempotency_complete idempotency_fail cleanup_expired_idempotency
call-IsTable (begin s k ttl now) db t = record {
  enabled = ground (arith, t.enabled);
  pool = ground (arith, t.enabled);
  keyed = λ a b. ground (
    arith,
    t.enabled,
    t.keyed a b,
    rows_at-append a b (begun s k (now + ttl)) (delete s k db.rows),
    rows_at-delete s k a b db.rows,
  );
}
call-IsTable (complete s k ttl now) db t = record {
  enabled = ground (arith, t.enabled);
  pool = ground (arith, t.enabled);
  keyed = λ a b.
      ground (arith, t.enabled, t.keyed a b, rows_at-update_completed s k a b (now + ttl) db.rows);
}
call-IsTable (fail s k) db t = record {
  enabled = ground (arith, t.enabled);
  pool = ground (arith, t.pool);
  keyed = λ a b. ground (arith, t.enabled, t.pool, t.keyed a b, rows_at-delete s k a b db.rows);
}
call-IsTable (cleanup now) db t = record {
  enabled = ground (arith, t.enabled);
  pool = ground (arith, t.pool);
  keyed =
      λ a b. ground (arith, t.enabled, t.pool, t.keyed a b, rows_at-delete_expired a b now db.rows);
}

-- The answer and the ledger, event by event.
call-promise :
    (c : Call) (db : Database)
    → IsTable db
    → ((call c db).0 ≡ (promise c (ledger_of db.rows)).0)
      × ((a b : Text) → ledger_of (call c db).1.rows a b ≡ (promise c (ledger_of db.rows)).1 a b)
unfolding call promise idempotency_begin idempotency_complete idempotency_fail
    cleanup_expired_idempotency
call-promise (begin s k ttl now) db t = (
  ground (arith, t.enabled),
  λ a b. ground (
    arith,
    t.enabled,
    select-append a b (begun s k (now + ttl)) (delete s k db.rows),
    select-delete s k a b db.rows,
  ),
)
call-promise (complete s k ttl now) db t =
    (refl, λ a b. ground (arith, t.enabled, select-update_completed s k a b (now + ttl) db.rows))
call-promise (fail s k) db t =
    (refl, λ a b. ground (arith, t.enabled, t.pool, select-delete s k a b db.rows))
call-promise (cleanup now) db t = (
  refl,
  λ a b. ground (arith, t.enabled, t.pool, select-delete_expired a b now db.rows (t.keyed a b)),
)

-- The calls in turn, with their answers.
unfoldable pub run : List Call → Database → List (Option Answer) × Database
run [] db = ([], db)
run (c ∷ calls) db =
    let (answer, next) = call c db in
    let (answers, last) = run calls next in (answer ∷ answers, last)

unfoldable pub promises : List Call → Ledger → List (Option Answer) × Ledger
promises [] ledger = ([], ledger)
promises (c ∷ calls) ledger =
    let (answer, next) = promise c ledger in
    let (answers, last) = promises calls next in (answer ∷ answers, last)

-- The table keeps the promises of a partial map from events to a state and an expiry. From a table
-- that is in use and has its primary key, any sequence of calls gives the answers that the
-- map gives, and leaves a table that stands for the map that the calls make.
pub run-promises :
    (calls : List Call) (db : Database)
    → IsTable db
    → ((run calls db).0 ≡ (promises calls (ledger_of db.rows)).0)
      × (ledger_of (run calls db).1.rows ≡ (promises calls (ledger_of db.rows)).1)
unfolding run promises
run-promises [] db t = (refl, refl)
run-promises (c ∷ calls) db t =
    let (a, l) = call-promise c db t in
    let e : ledger_of (call c db).1.rows ≡ (promise c (ledger_of db.rows)).1 = λ i s k. l s k i in
    let (answers, last) = run-promises calls (call c db).1 (call-IsTable c db t) in (cc, cc)
