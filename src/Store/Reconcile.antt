-- ===== src/Store/Reconcile.antt =====
-- What `reconcile_servers` returns and leaves at startup.
use openai_ipmi_proxy.Prelude.{
  ℕ, ◌≡◌, refl, sym, ap, ◌∙◌, arith, String, List, [], ◌∷◌, Option, none, some, if◌then◌else◌, ◌==◌,
  string_eq, Bool-cases, inl, inr, false,
}
use openai_ipmi_proxy.Prelude.Lists.{contains}
use openai_ipmi_proxy.Prelude.Dict.{lookup, insert, lookup-insert}
use openai_ipmi_proxy.Store.Buffer.{
  WriteResult, committed, db_failure, raised, note_write_success, note_write_failure,
}
use openai_ipmi_proxy.Store.Tables.{
  Database, ServerRow, inserted, unknown_row, row_or_new, add_missing, reconcile_loop, unowned,
  reconcile_servers,
}

-- The table once the row of a name is there
lookup-add_missing :
    (now : ℕ) (name n : String) (table : List (String × ServerRow)) (o : Option ServerRow)
    → lookup name table ≡ o
    → lookup n (add_missing now name o table)
      ≡ (if name == n then some (row_or_new now o) else lookup n table)
lookup-add_missing now name n table none h = lookup-insert name n (inserted now) table
lookup-add_missing now name n table (some row) h = elim (Bool-cases (name == n)) [
  | inl same ↦ rw same (ap (λ k. lookup k table) (sym ((string_eq.agree name n).0 same)) ∙ h)
  | inr other ↦ rw other refl
]

-- The row of a configured server is the one it had, or a new one.
abbrev given_row :
    ℕ → List String → List (String × ServerRow) → String → Option ServerRow → Option ServerRow
given_row now names table n otherwise =
    if contains names n then some (row_or_new now (lookup n table)) else otherwise

-- One more name in front, for whatever stands where the names are not
given_row-cons :
    (now : ℕ) (name : String) (names : List String) (table : List (String × ServerRow)) (n : String)
    (before : Option ServerRow)
    → given_row now names
        (add_missing now name (lookup name table) table)
        n
        (if name == n then some (row_or_new now (lookup name table)) else before)
      ≡ given_row now (name ∷ names) table n before
unfolding contains
given_row-cons now name names table n before = elim (Bool-cases (name == n)) [
  | inl same ↦
      let here : lookup name table ≡ lookup n table =
        ap (λ k. lookup k table) ((string_eq.agree name n).0 same) in
      ground (arith, same, here, lookup-add_missing now name n table (lookup name table) refl)
  | inr other ↦ ground (arith, other, lookup-add_missing now name n table (lookup name table) refl)
]

reconcile_loop-rows :
    (now : ℕ) (names : List String) (rows table : List (String × ServerRow)) (n : String)
    → lookup n (reconcile_loop now names rows table).0 ≡ given_row now names table n (lookup n rows)
unfolding reconcile_loop contains
reconcile_loop-rows now [] rows table n = refl
reconcile_loop-rows now (name ∷ names) rows table n =
    reconcile_loop-rows now names _ _ n
    ∙ ap (given_row now names (add_missing now name (lookup name table) table) n)
        (lookup-insert name n (row_or_new now (lookup name table)) rows)
    ∙ given_row-cons now name names table n (lookup n rows)

reconcile_loop-table :
    (now : ℕ) (names : List String) (rows table : List (String × ServerRow)) (n : String)
    → lookup n (reconcile_loop now names rows table).1
      ≡ given_row now names table n (lookup n table)
unfolding reconcile_loop contains
reconcile_loop-table now [] rows table n = refl
reconcile_loop-table now (name ∷ names) rows table n =
    reconcile_loop-table now names _ _ n
    ∙ ap (given_row now names (add_missing now name (lookup name table) table) n)
        (lookup-add_missing now name n table (lookup name table) refl)
    ∙ given_row-cons now name names table n (lookup n table)

lookup-unowned :
    (names : List String) (rows : List (String × ServerRow)) (n : String)
    → lookup n (unowned names rows) ≡ (if contains names n then some unknown_row else lookup n rows)
unfolding unowned contains
lookup-unowned [] rows n = refl
lookup-unowned (name ∷ names) rows n = ground (
  arith,
  lookup-unowned names (insert name unknown_row rows) n,
  lookup-insert name n unknown_row rows,
)

-- The row of a server that is not owned and of which nothing is known
abbrev pub foreign_row : Option ℕ → ServerRow
foreign_row updated_at = record {
  row = record {
    power_state = some "unknown";
    owned = false;
    cycle_id = none;
    shutdown_override = none;
  };
  updated_at = updated_at;
}

-- The row that was in the table, or else one without ownership, written now
abbrev pub row_after : ℕ → Option ServerRow → ServerRow
row_after now none = foreign_row (some now)
row_after now (some row) = row

row_or_new-after : (now : ℕ) (o : Option ServerRow) → row_or_new now o ≡ row_after now o
row_or_new-after now none = refl
row_or_new-after now (some row) = refl

abbrev pub assigned :
    ℕ → List String → List (String × ServerRow) → String → Option ServerRow → Option ServerRow
assigned now names table n otherwise =
    if contains names n then some (row_after now (lookup n table)) else otherwise

given_row-assigned :
    (now : ℕ) (names : List String) (table : List (String × ServerRow)) (n : String)
    (otherwise : Option ServerRow)
    → given_row now names table n otherwise ≡ assigned now names table n otherwise
given_row-assigned now names table n otherwise =
    ap (λ (row : ServerRow). if contains names n then some row else otherwise)
      (row_or_new-after now (lookup n table))

-- By how the write ends: the rows that are returned, by name, and the database after it
abbrev pub Reconciled :
    ℕ
    → List String
    → Database
    → WriteResult
    → Option (List (String × ServerRow)) × Database
    → Type 0
Reconciled now names db committed (some rows, after) =
    ((n : String) → lookup n rows ≡ assigned now names db.server_runtime n none)
    × ((n : String)
        → lookup n after.server_runtime
          ≡ assigned now names db.server_runtime n (lookup n db.server_runtime))
    × (after
        ≡ record db { server_runtime = after.server_runtime; store = note_write_success db.store })
Reconciled now names db db_failure (some rows, after) =
    ((n : String) → lookup n rows ≡ (if contains names n then some (foreign_row none) else none))
    × (after ≡ record db { store = note_write_failure db.store })
Reconciled now names db raised (none, after) = after ≡ db
Reconciled now names db _ _ = ⊥

-- At startup each configured server, and no other, gets its row: the one it had, unchanged, or a new one without ownership, which is then in the table too; the rows of other servers stay. When the write fails, each gets a row without ownership, whatever the table holds, and the tables stay.
pub reconcile_servers-Reconciled :
    (now : ℕ) (names : List String) (result : WriteResult) (db : Database)
    → Reconciled now names db result (reconcile_servers now names result db)
unfolding reconcile_servers lookup
reconcile_servers-Reconciled now names committed db = (
  (λ n.
      reconcile_loop-rows now names [] db.server_runtime n
      ∙ given_row-assigned now names db.server_runtime n none),
  (λ n.
      reconcile_loop-table now names [] db.server_runtime n
      ∙ given_row-assigned now names db.server_runtime n (lookup n db.server_runtime)),
  refl,
)
reconcile_servers-Reconciled now names db_failure db = ((λ n. lookup-unowned names [] n), refl)
reconcile_servers-Reconciled now names raised db = refl
