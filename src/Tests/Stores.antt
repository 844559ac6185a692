-- ===== src/Tests/Stores.antt =====
-- relay/store.py: the database of a small installation.
use openai_ipmi_proxy.Prelude.{
  ℕ, zero, suc, ◌≡◌, refl, arith, String, Bool, true, List, [], ◌∷◌, none, some, if◌then◌else◌, ltb,
  Bool-cases, inl, inr, string_eq,
}
use openai_ipmi_proxy.Prelude.Lists.{count, distinct, contains}
use openai_ipmi_proxy.Prelude.Dict.{lookup, keys}
use openai_ipmi_proxy.Power.Backend.{on}
use openai_ipmi_proxy.Power.Noop.{NoopBackend, noop_backend}
use openai_ipmi_proxy.Server.Runtime.{
  ServerConfig, on_routed_traffic, init as init_server, restore, set_server_runtime,
  log_power_event, no_values, external_change,
}
use openai_ipmi_proxy.Server.Events.{traffic, step, run}
use openai_ipmi_proxy.Server.Mirror.{new_row}
use openai_ipmi_proxy.Store.Buffer.{committed, db_failure, init}
use openai_ipmi_proxy.Store.Tables.{
  Database, ServerRow, inserted, SessionKey, PowerEvent, transaction, reconcile_servers,
  session_key_eq,
}
use openai_ipmi_proxy.Store.Retention.{Removed, done, keep, drop, Deletion, prune}
use openai_ipmi_proxy.Store.Pruned.{counts, pruned, prune_lem}
use openai_ipmi_proxy.Store.Sessions.{Touch, touch_all, times, history, touch_all-history}
use openai_ipmi_proxy.Store.Reconcile.{Reconciled, reconcile_servers-Reconciled}
use openai_ipmi_proxy.Store.Persisted.{Write, persist}
use openai_ipmi_proxy.Store.Mirrored.{restart_through_store}

-- A database that deletes the first rows that match
module _ {A : Type 0} (stale : A → Bool) where
  unfoldable first_ones : ℕ → List A → List A × ℕ
  first_ones limit [] = ([], 0)
  first_ones zero (x ∷ xs) = (x ∷ xs, 0)
  first_ones (suc n) (x ∷ xs) =
      let (without, k) = first_ones n xs in
      let (others, m) = first_ones (suc n) xs in
      if stale x then (without, suc k) else (x ∷ others, m)

  all_kept : (xs : List A) → Removed stale xs xs 0
  all_kept [] = done
  all_kept (x ∷ xs) = keep x (all_kept xs)

  first_ones-Removed :
      (limit : ℕ) (xs : List A) → Removed stale xs (first_ones limit xs).0 (first_ones limit xs).1
  unfolding first_ones
  first_ones-Removed limit [] = done
  first_ones-Removed zero (x ∷ xs) = all_kept (x ∷ xs)
  first_ones-Removed (suc n) (x ∷ xs) = elim (Bool-cases (stale x)) [
    | inl old ↦ rw old (drop x old (first_ones-Removed n xs))
    | inr new ↦ rw new (keep x (first_ones-Removed (suc n) xs))
  ]

  first_ones-limited :
      (limit : ℕ) (xs : List A)
      → (first_ones limit xs).1 ≡ (if ltb limit (count stale xs) then limit else count stale xs)
  unfolding first_ones count
  first_ones-limited limit [] = ground arith
  first_ones-limited zero (x ∷ xs) = ground arith
  first_ones-limited (suc n) (x ∷ xs) =
      ground (arith, first_ones-limited n xs, first_ones-limited (suc n) xs)

abbrev in_order : {A : Type 0} → Deletion A
in_order = record {
  delete = λ limit stale xs. first_ones stale limit xs;
  removes = λ limit stale xs. first_ones-Removed stale limit xs;
  limited = λ limit stale xs. first_ones-limited stale limit xs;
}

abbrev event : ℕ → PowerEvent
event ts = record {
  ts = ts;
  server = "box";
  action = external_change;
  reason = "poll";
  initiated_by = "external";
  success = true;
}

abbrev chat_session : SessionKey
chat_session = ("opencode", ("ses_1", "chat"))

abbrev small_database : Database
small_database = record {
  store = init;
  server_runtime = [];
  endpoint_runtime = [];
  power_events = event 5_000 ∷ event 90_000_000 ∷ [];
  sessions =
      (chat_session, record { first_seen = 4_000; last_seen = 6_000; request_count = 2 }) ∷ [];
}

prune_lem_example :
    prune in_order in_order in_order 90_000_000 1 committed small_database
    ≡ some (
        transaction committed []
          (counts 90_000_000 1 small_database, pruned 90_000_000 1 small_database)
          small_database)
prune_lem_example = prune_lem in_order in_order in_order 90_000_000 1 committed small_database

abbrev touches : List Touch
touches =
    record { now = 7_000; key = chat_session; result = committed }
    ∷ record { now = 8_000; key = chat_session; result = db_failure }
    ∷ record { now = 9_000; key = chat_session; result = committed }
    ∷ []

touch_all-history_example :
    (lookup chat_session (touch_all touches small_database).sessions
      ≡ history (lookup chat_session small_database.sessions) (times chat_session touches))
    × (distinct (keys (touch_all touches small_database).sessions) ≡ true)
unfolding distinct contains
touch_all-history_example = touch_all-history touches chat_session small_database refl

reconcile_servers-Reconciled_example :
    Reconciled 1_000
      ("box" ∷ [])
      small_database
      committed
      (reconcile_servers 1_000 ("box" ∷ []) committed small_database)
reconcile_servers-Reconciled_example =
    reconcile_servers-Reconciled 1_000 ("box" ∷ []) committed small_database

abbrev adopting : ServerConfig
adopting = record {
  idle_timeout = 600_000;
  shutdown_enabled = true;
  adopt_on_traffic = true;
  power_on_cooldown = 30_000;
  cron = none;
}

abbrev machine : NoopBackend
machine = record { state = on; actions = [] }

abbrev new_server : ServerRow
new_server = inserted 1_000

abbrev names : List String
names = "box" ∷ "other" ∷ []

-- What the server writes when traffic adopts it, and a call of another server in between
abbrev writes : List Write
writes =
    record {
      now = 2_000;
      server = "box";
      call =
          set_server_runtime (record no_values { owned = some true; cycle_id = some (some "c") });
    }
    ∷ record {
      now = 2_500;
      server = "other";
      call = log_power_event external_change "poll" "external" true;
    }
    ∷ record {
      now = 2_600;
      server = "box";
      call = log_power_event external_change "adopted" "proxy" true;
    }
    ∷ []

restart_through_store_example :
    let s =
      run noop_backend
        (traffic 2_000 "c" ∷ [])
        (restore new_row (init_server adopting machine 1_000)) in
    let after = persist writes (reconcile_servers 1_000 names committed small_database).1 in
    (later_rows : List (String × ServerRow)) × (later_row : ServerRow) × ((reconcile_servers 9_000
        names committed after).0
      ≡ some later_rows)
    × (lookup "box" later_rows ≡ some later_row)
    × (let t = restore later_row.row (init_server adopting machine 9_000) in
        (t.power_state ≡ s.power_state)
        × (t.owned ≡ s.owned)
        × (t.shutdown_override ≡ s.shutdown_override)
        × (t.cycle_id ≡ s.cycle_id))
unfolding reconcile_servers run step contains lookup restore on_routed_traffic init_server
restart_through_store_example =
    restart_through_store noop_backend names names "box" small_database
      (("box", new_server) ∷ ("other", new_server) ∷ []) new_server (traffic 2_000 "c" ∷ [])
      adopting adopting machine machine 1_000 1_000 9_000 writes refl refl refl refl refl
