-- ===== src/Store/Tables.antt =====
-- relay/store.py and relay/db.py: the tables and the writes to them. A table with a key is an association list, one
-- without is the list of its rows in the order of their ids, which SQLite gives in ascending order. How
-- the transaction ends is an argument.
use openai_ipmi_proxy.Prelude.{
  Eq, ℕ, ◌+◌, String, Bool, true, false, List, [], ◌∷◌, ◌++◌, Option, none, some, string_eq,
  pair_eq,
}
use openai_ipmi_proxy.Prelude.Dict.{lookup, insert}
use openai_ipmi_proxy.Server.Runtime.{
  ServerRuntimeRow, RuntimeValues, PowerAction, set_server_runtime,
}
use openai_ipmi_proxy.Server.Mirror.{new_row, update_row}
use openai_ipmi_proxy.Store.Buffer.{
  WriteResult, committed, db_failure, raised, Store, note_write_failure, note_write_success,
}

-- A row of `server_runtime`, with the time of its last change
pub record ServerRow : Type 0 where
  pub row : ServerRuntimeRow
  pub updated_at : Option ℕ

-- A row of `endpoint_runtime`
pub record ReadinessRow : Type 0 where
  pub ready : Bool
  pub ready_since : Option ℕ
  pub last_check_at : Option ℕ

pub record PowerEvent : Type 0 where
  pub ts : ℕ
  pub server : String
  pub action : PowerAction
  pub reason : String
  pub initiated_by : String
  pub success : Bool

pub record SessionRecord : Type 0 where
  pub first_seen : ℕ
  pub last_seen : ℕ
  pub request_count : ℕ

-- The key of `sessions`: the client, the session and the endpoint
abbrev pub SessionKey : Type 0
SessionKey = String × (String × String)

instance abbrev pub session_key_eq : Eq SessionKey
session_key_eq = pair_eq ⦃e = string_eq⦄ ⦃f = pair_eq⦄

-- The store with its database; the table `requests` is the one of `store`.
pub record Database : Type 0 where
  pub store : Store
  pub server_runtime : List (String × ServerRow)
  pub endpoint_runtime : List (String × ReadinessRow)
  pub power_events : List PowerEvent
  pub sessions : List (SessionKey × SessionRecord)

-- A write: what it returns, `none` if an error is raised, and the database after it. `done` is what it returns and
-- leaves when it is committed, `fallback` what it returns when the failure is caught.
abbrev pub transaction {ℓ} :
    {A : Type ℓ} → WriteResult → A → A × Database → Database → Option A × Database
transaction committed fallback (result, after) db =
    (some result, record after { store = note_write_success after.store })
transaction db_failure fallback done db =
    (some fallback, record db { store = note_write_failure db.store })
transaction raised fallback done db = (none, db)

-- A transaction that returns nothing
abbrev pub write : WriteResult → Database → Database → Option (Unit {0}) × Database
write result after db = transaction result tt (tt, after) db

module _ {K V : Type 0} ⦃e : Eq K⦄ where
  -- `INSERT … ON CONFLICT (key) DO UPDATE`, on the row of the key
  abbrev pub insert_or_change : K → V → (V → V) → List (K × V) → Option V → List (K × V)
  insert_or_change key new change table none = insert key new table
  insert_or_change key new change table (some old) = insert key (change old) table

  abbrev pub upsert : K → V → (V → V) → List (K × V) → List (K × V)
  upsert key new change table = insert_or_change key new change table (lookup key table)

  -- `UPDATE … WHERE key`, on the row of the key
  abbrev pub change_found : K → (V → V) → List (K × V) → Option V → List (K × V)
  change_found key change table none = table
  change_found key change table (some old) = insert key (change old) table

  abbrev pub update_where : K → (V → V) → List (K × V) → List (K × V)
  update_where key change table = change_found key change table (lookup key table)

unfoldable pub upsert_session :
    ℕ → String → String → String → WriteResult → Database → Option (Unit {0}) × Database
unfolding lookup insert
upsert_session now client session_id endpoint result db =
    write result
      (record db {
        sessions =
            upsert (client, (session_id, endpoint))
              (record { first_seen = now; last_seen = now; request_count = 1 })
              (λ old. record old { last_seen = now; request_count = old.request_count + 1 })
              db.sessions;
      })
      db

unfoldable pub set_endpoint_runtime :
    String → ReadinessRow → WriteResult → Database → Option (Unit {0}) × Database
unfolding lookup insert
set_endpoint_runtime name row result db =
    write result (record db { endpoint_runtime = upsert name row (λ old. row) db.endpoint_runtime })
      db

unfoldable pub log_event : PowerEvent → WriteResult → Database → Option (Unit {0}) × Database
log_event event result db =
    write result (record db { power_events = db.power_events ++ event ∷ [] }) db

-- `if not values`
abbrev pub is_empty : RuntimeValues → Bool
is_empty values = elim values.power_state [
  | some p ↦ false
  | none ↦ elim values.owned [
    | some o ↦ false
    | none ↦ elim values.shutdown_override [
      | some s ↦ false
      | none ↦ elim values.cycle_id [ some c ↦ false | none ↦ true ]
    ]
  ]
]

-- `set_server_runtime`, by whether there are no values: without a row of the name, nothing is updated.
abbrev pub update_unless :
    Bool → ℕ → String → RuntimeValues → WriteResult → Database → Option (Unit {0}) × Database
update_unless true now name values result db = (some tt, db)
update_unless false now name values result db =
    write result
      (record db {
        server_runtime =
            update_where name
              (λ old. record {
                row = update_row (set_server_runtime values) old.row;
                updated_at = some now;
              })
              db.server_runtime;
      })
      db

unfoldable pub update_server :
    ℕ → String → RuntimeValues → WriteResult → Database → Option (Unit {0}) × Database
unfolding lookup insert update_row
update_server now name values result db = update_unless (is_empty values) now name values result db

-- The row that stands for a server that the store does not know, and the one it inserts
abbrev pub inserted : ℕ → ServerRow
inserted now = record { row = new_row; updated_at = some now }

abbrev pub unknown_row : ServerRow
unknown_row = record { row = new_row; updated_at = none }

-- `if row is None: …`
abbrev pub row_or_new : ℕ → Option ServerRow → ServerRow
row_or_new now none = inserted now
row_or_new now (some row) = row

abbrev pub add_missing :
    ℕ → String → Option ServerRow → List (String × ServerRow) → List (String × ServerRow)
add_missing now name none table = insert name (inserted now) table
add_missing now name (some row) table = table

-- The loop of `reconcile_servers`, over `rows` and the table
unfoldable pub reconcile_loop :
    ℕ
    → List String
    → List (String × ServerRow)
    → List (String × ServerRow)
    → List (String × ServerRow) × List (String × ServerRow)
unfolding lookup insert
reconcile_loop now [] rows table = (rows, table)
reconcile_loop now (name ∷ names) rows table =
    let row = lookup name table in
    reconcile_loop now names (insert name (row_or_new now row) rows)
      (add_missing now name row table)

-- `{name: ServerRuntimeRow(name, "unknown", False, None, None, None) for name in names}`
unfoldable pub unowned : List String → List (String × ServerRow) → List (String × ServerRow)
unfolding insert
unowned [] rows = rows
unowned (name ∷ names) rows = unowned names (insert name unknown_row rows)

unfoldable pub reconcile_servers :
    ℕ → List String → WriteResult → Database → Option (List (String × ServerRow)) × Database
unfolding reconcile_loop unowned
reconcile_servers now names result db =
    let (rows, table) = reconcile_loop now names [] db.server_runtime in
    transaction result (unowned names []) (rows, record db { server_runtime = table }) db
