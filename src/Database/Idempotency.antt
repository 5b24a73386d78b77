-- ===== src/Database/Idempotency.antt =====
-- The idempotency table of `PostgresDatabase` in src/titanbox/database.py: `idempotency_begin`,
-- `idempotency_complete`, `idempotency_fail` and `cleanup_expired_idempotency`, each one transaction.
-- Times are seconds, `now` is `NOW()`. The column `updated_at` is left out: no statement reads it.
pub mod Laws
pub mod Ledger
use vpsssssskjwjw.Prelude.{
  ℕ, ◌+◌, Bool, true, false, ◌&&◌, not, Option, none, some, List, [], ◌∷◌, ◌++◌, Text, text_eq,
  ◌==◌, leb, length, if◌then◌else◌, ◌-◌,
}

pub data State : Type 0 where
  inflight completed : State

-- What `idempotency_begin` returns: `"new"`, or the state of the row.
pub data Answer : Type 0 where
  new : Answer
  old : State → Answer

pub record Row : Type 0 where
  pub scope : Text
  pub event_key : Text
  pub state : State
  pub expires_at : ℕ

-- `enabled` is whether a DSN is configured, `pool` whether the pool has been started.
pub record Database : Type 0 where
  pub enabled : Bool
  pub pool : Bool
  pub rows : List Row

-- `WHERE scope=$1 AND event_key=$2`
abbrev pub is_at : Text → Text → Row → Bool
is_at scope event_key r = (r.scope == scope) && (r.event_key == event_key)

unfoldable pub select : Text → Text → List Row → Option Row
select scope event_key [] = none
select scope event_key (r ∷ rows) =
    if is_at scope event_key r then some r else select scope event_key rows

unfoldable pub delete : Text → Text → List Row → List Row
delete scope event_key [] = []
delete scope event_key (r ∷ rows) =
    let rest = delete scope event_key rows in if is_at scope event_key r then rest else r ∷ rest

unfoldable pub update_completed : Text → Text → ℕ → List Row → List Row
update_completed scope event_key expires [] = []
update_completed scope event_key expires (r ∷ rows) =
    (if is_at scope event_key r then record r { state = completed; expires_at = expires } else r)
    ∷ update_completed scope event_key expires rows

-- The rows after the `DELETE` and the `INSERT`.
abbrev renewed : Text → Text → ℕ → List Row → List Row
renewed scope event_key expires rows =
    delete scope event_key rows
    ++ (record { scope = scope; event_key = event_key; state = inflight; expires_at = expires }
        ∷ [])

unfoldable pub idempotency_begin : Text → Text → ℕ → ℕ → Database → Answer × Database
idempotency_begin scope event_key ttl now db =
    let started = record db { pool = true } in
    let fresh : Answer × Database =
      (new, record started { rows = renewed scope event_key (now + ttl) db.rows }) in
    if not db.enabled then (new, db) else elim (select scope event_key db.rows) [
      | none ↦ fresh
      | some r ↦ if leb r.expires_at now then fresh else (old r.state, started)
    ]

unfoldable pub idempotency_complete : Text → Text → ℕ → ℕ → Database → Database
idempotency_complete scope event_key ttl now db =
    if db.enabled
    then record db { pool = true; rows = update_completed scope event_key (now + ttl) db.rows }
    else db

unfoldable pub idempotency_fail : Text → Text → Database → Database
idempotency_fail scope event_key db =
    if db.enabled && db.pool then record db { rows = delete scope event_key db.rows } else db

unfoldable pub delete_expired : ℕ → List Row → List Row
delete_expired now [] = []
delete_expired now (r ∷ rows) =
    let rest = delete_expired now rows in if leb r.expires_at now then rest else r ∷ rest

-- The number is that of the status line `DELETE n`.
unfoldable pub cleanup_expired_idempotency : ℕ → Database → ℕ × Database
cleanup_expired_idempotency now db =
    let rows = delete_expired now db.rows in
    if db.enabled && db.pool
    then (length db.rows - length rows, record db { rows = rows })
    else (0, db)
