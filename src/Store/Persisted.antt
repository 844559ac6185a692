-- ===== src/Store/Persisted.antt =====
-- What the calls of a server make of its row, among those of the other servers.
use openai_ipmi_proxy.Prelude.{
  ℕ, ◌≡◌, refl, sym, ap, ◌∙◌, subst, arith, String, Bool, true, false, List, [], ◌∷◌, Option, none,
  some, if◌then◌else◌, ◌==◌, string_eq, Bool-cases, inl, inr,
}
use openai_ipmi_proxy.Prelude.Dict.{lookup, lookup-insert}
use openai_ipmi_proxy.Power.Backend.{PowerState}
use openai_ipmi_proxy.Server.Runtime.{
  ServerRuntimeRow, RuntimeValues, StoreCall, set_server_runtime, log_power_event,
}
use openai_ipmi_proxy.Server.Mirror.{update_row, replay}
use openai_ipmi_proxy.Store.Buffer.{committed}
use openai_ipmi_proxy.Store.Tables.{
  Database, ServerRow, is_empty, change_found, update_where, update_unless, update_server,
  log_event,
}

-- A call of the store that a server makes, with its time
pub record Write : Type 0 where
  pub now : ℕ
  pub server : String
  pub call : StoreCall

-- The call of a server's journal, when it is committed
abbrev pub persist_call : ℕ → String → StoreCall → Database → Database
persist_call now name (set_server_runtime values) db =
    (update_server now name values committed db).1
persist_call now name (log_power_event action reason by ok) db =
    (log_event
      (record {
        ts = now;
        server = name;
        action = action;
        reason = reason;
        initiated_by = by;
        success = ok;
      })
      committed db).1

unfoldable pub persist : List Write → Database → Database
persist [] db = db
persist (w ∷ writes) db = persist writes (persist_call w.now w.server w.call db)

-- The calls of one server among them
abbrev pub calls_of : String → List Write → List StoreCall
calls_of name [] = []
calls_of name (w ∷ writes) =
    if w.server == name then w.call ∷ calls_of name writes else calls_of name writes

-- The server has a row with these values.
abbrev pub Holds : String → ServerRuntimeRow → Database → Type 0
Holds name row db = (r : ServerRow) × (lookup name db.server_runtime ≡ some r) × (r.row ≡ row)

update_nothing :
    (p : Option PowerState) (o : Option Bool) (s : Option (Option Bool))
    (c : Option (Option String)) (row : ServerRuntimeRow)
    → is_empty (record { power_state = p; owned = o; shutdown_override = s; cycle_id = c }) ≡ true
    → update_row
        (set_server_runtime
          (record { power_state = p; owned = o; shutdown_override = s; cycle_id = c }))
        row
      ≡ row
unfolding update_row
update_nothing none none none none row h = refl
update_nothing (some p) o s c row h = absurd (ground (arith, h))
update_nothing none (some o) s c row h = absurd (ground (arith, h))
update_nothing none none (some s) c row h = absurd (ground (arith, h))
update_nothing none none none (some c) row h = absurd (ground (arith, h))

-- The change that a call makes to a row
abbrev changed : ℕ → RuntimeValues → ServerRow → ServerRow
changed now values old = record {
  row = update_row (set_server_runtime values) old.row;
  updated_at = some now;
}

module _ (name : String) where
  change_found_other :
      (server : String) (change : ServerRow → ServerRow) (table : List (String × ServerRow))
      (o : Option ServerRow)
      → (server == name) ≡ false
      → lookup name (change_found server change table o) ≡ lookup name table
  change_found_other server change table none other = refl
  change_found_other server change table (some old) other =
      lookup-insert server name (change old) table ∙ rw other refl

  update_where_self :
      (change : ServerRow → ServerRow) (table : List (String × ServerRow)) (r : ServerRow)
      → lookup name table ≡ some r
      → lookup name (update_where name change table) ≡ some (change r)
  update_where_self change table r found =
      ap (λ o. lookup name (change_found name change table o)) found
      ∙ lookup-insert name name (change r) table
      ∙ ground (arith, string_eq.agree name name)

  module _ (now : ℕ) (values : RuntimeValues) (row : ServerRuntimeRow) (db : Database) where
    update_self :
        (empty : Bool)
        → is_empty values ≡ empty
        → Holds name row db
        → Holds name
            (update_row (set_server_runtime values) row)
            (update_unless empty now name values committed db).1
    update_self true h (r, found, same) = (
      r,
      found,
      same
          ∙ sym (
              update_nothing values.power_state values.owned values.shutdown_override
                values.cycle_id row h),
    )
    update_self false h (r, found, same) = (
      changed now values r,
      update_where_self (changed now values) db.server_runtime r found,
      ap (update_row (set_server_runtime values)) same,
    )

    update_other :
        (server : String) (empty : Bool)
        → (server == name) ≡ false
        → Holds name row db
        → Holds name row (update_unless empty now server values committed db).1
    update_other server true other h = h
    update_other server false other (r, found, same) = (
      r,
      change_found_other server (changed now values) db.server_runtime
            (lookup server db.server_runtime) other
          ∙ found,
      same,
    )

  -- One call, by the server whose it is and by another
  persist_self :
      (now : ℕ) (call : StoreCall) (row : ServerRuntimeRow) (db : Database)
      → Holds name row db
      → Holds name (update_row call row) (persist_call now name call db)
  unfolding update_server log_event update_row
  persist_self now (log_power_event action reason by ok) row db h = h
  persist_self now (set_server_runtime values) row db h =
      update_self now values row db (is_empty values) refl h

  persist_other :
      (now : ℕ) (server : String) (call : StoreCall) (row : ServerRuntimeRow) (db : Database)
      → (server == name) ≡ false
      → Holds name row db
      → Holds name row (persist_call now server call db)
  unfolding update_server log_event
  persist_other now server (log_power_event action reason by ok) row db other h = h
  persist_other now server (set_server_runtime values) row db other h =
      update_other now values row db server (is_empty values) other h

  pub persist-Holds :
      (writes : List Write) (row : ServerRuntimeRow) (db : Database)
      → Holds name row db
      → Holds name (replay (calls_of name writes) row) (persist writes db)
  unfolding persist replay
  persist-Holds [] row db h = h
  persist-Holds (w ∷ writes) row db h = elim (Bool-cases (w.server == name)) [
    | inl own ↦ rw own (
        persist-Holds writes (update_row w.call row) (persist_call w.now w.server w.call db) (
          subst (λ n. Holds name (update_row w.call row) (persist_call w.now n w.call db))
            (sym ((string_eq.agree w.server name).0 own)) (persist_self w.now w.call row db h)))
    | inr other ↦ rw other (
        persist-Holds writes row (persist_call w.now w.server w.call db)
          (persist_other w.now w.server w.call row db other h))
  ]
