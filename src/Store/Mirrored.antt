-- ===== src/Store/Mirrored.antt =====
-- A restart through the database: the row of a server among the rows of the others.
use openai_ipmi_proxy.Prelude.{
  ℕ, ◌≡◌, refl, sym, ap, ◌∙◌, subst, arith, String, true, List, [], some, string_eq,
}
use openai_ipmi_proxy.Prelude.Lists.{contains}
use openai_ipmi_proxy.Prelude.Dict.{lookup}
use openai_ipmi_proxy.Power.Backend.{PowerBackend}
use openai_ipmi_proxy.Server.Runtime.{ServerRuntimeRow, ServerRuntime, ServerConfig, restore, init}
use openai_ipmi_proxy.Server.Events.{Event, run}
use openai_ipmi_proxy.Server.Mirror.{replay}
use openai_ipmi_proxy.Server.Restart.{restart_keeps}
use openai_ipmi_proxy.Store.Buffer.{committed}
use openai_ipmi_proxy.Store.Tables.{
  Database, ServerRow, row_or_new, reconcile_loop, reconcile_servers,
}
use openai_ipmi_proxy.Store.Reconcile.{reconcile_servers-Reconciled}
use openai_ipmi_proxy.Store.Persisted.{Write, persist, calls_of, Holds, persist-Holds}

-- The row that a startup gives to a configured server
reconciled-Holds :
    (now : ℕ) (names : List String) (name : String) (db : Database)
    → contains names name ≡ true
    → (rows : List (String × ServerRow)) × (row : ServerRow) × ((reconcile_servers now names
          committed db).0
        ≡ some rows)
      × (lookup name rows ≡ some row)
      × (row ≡ row_or_new now (lookup name db.server_runtime))
      × (lookup name (reconcile_servers now names committed db).1.server_runtime ≡ some row)
unfolding reconcile_servers
reconciled-Holds now names name db known =
    let (rows_are, table_is, same) = reconcile_servers-Reconciled now names committed db in
    (
      (reconcile_loop now names [] db.server_runtime).0,
      row_or_new now (lookup name db.server_runtime),
      refl,
      rows_are name ∙ rw known refl,
      refl,
      table_is name ∙ rw known refl,
    )

some_injective : {A : Type 0} (a b : A) → some a ≡ some b → a ≡ b
some_injective a b h = ground (arith, h)

-- The row that the first startup returned is in the table.
started-Holds :
    (now : ℕ) (names : List String) (name : String) (db : Database)
    (rows : List (String × ServerRow)) (row : ServerRow)
    → contains names name ≡ true
    → (reconcile_servers now names committed db).0 ≡ some rows
    → lookup name rows ≡ some row
    → Holds name row.row (reconcile_servers now names committed db).1
started-Holds now names name db rows row known is_rows is_row =
    let (rows', row', is_rows', is_row', given, found) = reconciled-Holds now names name db known in
    let same_rows : rows' ≡ rows = some_injective rows' rows (sym is_rows' ∙ is_rows) in
    let same_row : row' ≡ row =
      some_injective row' row (sym is_row' ∙ ap (lookup name) same_rows ∙ is_row) in
    (row', found, ap (λ r. r.row) same_row)

module _ {B : Type 0} (api : PowerBackend B) where
  -- The server as a row gives it, against the one that ran
  abbrev Restored : ServerRuntime B → ServerConfig → B → ℕ → ServerRuntimeRow → Type 0
  Restored s config backend now row =
      let t = restore row (init config backend now) in
      (t.power_state ≡ s.power_state)
      × (t.owned ≡ s.owned)
      × (t.shutdown_override ≡ s.shutdown_override)
      × (t.cycle_id ≡ s.cycle_id)

  -- A server that starts from the row that `reconcile_servers` gives it goes through any events, and its calls of the store are committed among those of the other servers. At the next startup `reconcile_servers` gives it a row from which it has the power state, the ownership, the override of the auto-off and the power cycle that it had, whatever the configuration of the servers is then, as long as it is in it.
  pub restart_through_store :
      (names later_names : List String) (name : String) (db : Database)
      (rows : List (String × ServerRow)) (row : ServerRow) (events : List Event)
      (config later_config : ServerConfig) (backend later_backend : B) (first now later : ℕ)
      (writes : List Write)
      → contains names name ≡ true
      → contains later_names name ≡ true
      → (reconcile_servers first names committed db).0 ≡ some rows
      → lookup name rows ≡ some row
      → calls_of name writes ≡ (run api events (restore row.row (init config backend now))).journal
      → let s = run api events (restore row.row (init config backend now)) in
        let after = persist writes (reconcile_servers first names committed db).1 in
        (later_rows : List (String × ServerRow)) × (later_row : ServerRow) × ((reconcile_servers
            later later_names committed after).0
          ≡ some later_rows)
        × (lookup name later_rows ≡ some later_row)
        × (let t = restore later_row.row (init later_config later_backend later) in
            (t.power_state ≡ s.power_state)
            × (t.owned ≡ s.owned)
            × (t.shutdown_override ≡ s.shutdown_override)
            × (t.cycle_id ≡ s.cycle_id))
  restart_through_store names later_names name db rows row events config later_config backend
        later_backend first now later writes known later_known is_rows is_row own =
      let s = run api events (restore row.row (init config backend now)) in
      let after = persist writes (reconcile_servers first names committed db).1 in
      let (r, found, same) =
        persist-Holds name writes row.row (reconcile_servers first names committed db).1
          (started-Holds first names name db rows row known is_rows is_row) in
      let (later_rows, later_row, is_later, found_later, given, in_table) =
        reconciled-Holds later later_names name after later_known in
      let is_replayed : replay s.journal row.row ≡ later_row.row =
        ap (λ calls. replay calls row.row) (sym own)
        ∙ sym same
        ∙ ap (λ o. (row_or_new later o).row) (sym found)
        ∙ ap (λ r'. r'.row) (sym given) in
      (
        later_rows,
        later_row,
        is_later,
        found_later,
        subst (Restored s later_config later_backend later) is_replayed
            (restart_keeps api row.row events config later_config backend later_backend now later),
      )
