-- ===== src/Infrastructure.antt =====
-- The state of `InfrastructureManager` in src/titanbox/infrastructure.py: `_startup`, `start`,
-- `required_ready` and `health`, with the `health` of the database and of the release store. How the
-- calls to PostgreSQL and to the object store fare is a parameter.
use vpsssssskjwjw.Prelude.{Bool, true, false, ◌&&◌, ◌||◌, not, List, [], ◌∷◌, ◌++◌}

-- An entry of `_startup`: whether the service is enabled, and whether it is fine.
pub record Health : Type 0 where
  pub enabled : Bool
  pub ok : Bool

-- What the settings say.
pub record Requirements : Type 0 where
  pub storage_enabled : Bool
  pub database_enabled : Bool
  pub durability_required : Bool
  pub database_required : Bool

pub record Startup : Type 0 where
  pub storage : Health
  pub database : Health

-- How a service answers: in time or not, and then with the value asked for, with another one, or with
-- an exception.
pub data Reply : Type 0 where
  answers differs raises late : Reply

-- `health` of a service that is enabled or not; the exceptions are caught in it.
abbrev pub health_of : Bool → Reply → Health
health_of false r = record { enabled = false; ok = true }
health_of true answers = record { enabled = true; ok = true }
health_of true _ = record { enabled = true; ok = false }

-- `__init__`
unfoldable pub initial : Requirements → Startup
initial q = record {
  storage = record { enabled = q.storage_enabled; ok = not q.durability_required };
  database = record { enabled = q.database_enabled; ok = not q.database_required };
}

-- `start_db` and `check_storage`: a check that is late is cancelled, and leaves the entry.
abbrev pub check : Bool → Reply → Health → Health
check false r old = record { enabled = false; ok = true }
check true late old = old
check true r old = health_of true r

unfoldable pub start : Requirements → Reply → Reply → Startup → Startup
start q storage database s = record {
  storage = check q.storage_enabled storage s.storage;
  database = check q.database_enabled database s.database;
}

pub data Reason : Type 0 where
  runner_not_started one_or_more_bots_not_ready durable_storage_not_ready database_not_ready :
      Reason

abbrev pub reason_unless : Bool → Reason → List Reason
reason_unless true r = []
reason_unless false r = r ∷ []

-- `required_ready`: no reasons, or those against it.
unfoldable pub required_ready : Requirements → Startup → List Reason
required_ready q s =
    reason_unless (not q.durability_required || s.storage.ok) durable_storage_not_ready
    ++ reason_unless (not q.database_required || s.database.ok) database_not_ready

-- The `ok` of `health`.
unfoldable pub health : Requirements → Reply → Reply → Bool
health q storage database =
    let st = health_of q.storage_enabled storage in
    let db = health_of q.database_enabled database in
    (st.ok && db.ok)
    && ((not q.durability_required || st.enabled) && (not q.database_required || db.enabled))
