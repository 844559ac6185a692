-- ===== src/Server/Runtime.antt =====
-- relay/servers.py: `ServerRuntime`, its power state and power actions. A call of the store, which
-- mirrors the state and is never read back here, is a line of the journal.
pub mod State
unfoldable pub use State.*
use openai_ipmi_proxy.Prelude.{
  ℕ, ◌+◌, String, Bool, true, false, not, ◌&&◌, List, [], ◌∷◌, ◌++◌, Option, none, some, leb,
  if◌then◌else◌, ◌==◌, string_eq,
}
use openai_ipmi_proxy.Power.Backend.{PowerState, on, off, unknown, PowerBackend}

abbrev pub or_default : Option Bool → Bool → Bool
or_default none d = d
or_default (some b) d = b

-- `PowerState(text)`, where the text is the value of one
unfoldable pub parse_state : String → Option PowerState
parse_state s =
    if s == "on"
    then some on
    else if s == "off"
    then some off
    else if s == "unknown"
    then some unknown
    else none

-- `state is self.power_state`
abbrev pub same_state : PowerState → PowerState → Bool
same_state on on = true
same_state off off = true
same_state unknown unknown = true
same_state _ _ = false

abbrev pub is_on : PowerState → Bool
is_on on = true
is_on _ = false

-- `if row.power_state in {…}: self.power_state = PowerState(row.power_state)`
abbrev pub restored_state : Option String → PowerState → PowerState
restored_state none old = old
restored_state (some t) old = elim (parse_state t) [ none ↦ old | some p ↦ p ]

-- `if self.cycle_id is None: self.cycle_id = str(uuid.uuid4())`
abbrev pub keep_cycle : Option String → String → String
keep_cycle none uuid = uuid
keep_cycle (some cycle) uuid = cycle

-- `action, initiated_by` of `_power_sync_tick`
abbrev pub sync_event : Option Transient → StoreCall
sync_event none = log_power_event external_change "poll" "external" true
sync_event (some t) = log_power_event state_sync "poll" "proxy" true

module _ {B : Type 0} where
  -- `shutdown_enabled_now`
  abbrev pub shutdown_enabled_now : ServerRuntime B → Bool
  shutdown_enabled_now s = or_default s.shutdown_override s.config.shutdown_enabled

  abbrev pub write : StoreCall → ServerRuntime B → ServerRuntime B
  write call s = record s { journal = s.journal ++ call ∷ [] }

  unfoldable pub restore : ServerRuntimeRow → ServerRuntime B → ServerRuntime B
  unfolding parse_state
  restore row s = record s {
    owned = row.owned;
    shutdown_override = row.shutdown_override;
    cycle_id = row.cycle_id;
    power_state = restored_state row.power_state s.power_state;
  }

  abbrev pub stamp : ℕ → PowerState → ServerRuntime B → ServerRuntime B
  stamp now on s = record s { powered_on_at = some now }
  stamp now off s = record s { powered_off_at = some now }
  stamp now unknown s = s

  -- `_set_state`
  unfoldable pub set_state : ℕ → PowerState → ServerRuntime B → ServerRuntime B
  set_state now state s =
      if same_state state s.power_state
      then s
      else stamp now state (record s { power_state = state; transient = none })

  unfoldable pub set_shutdown_override : Bool → ServerRuntime B → ServerRuntime B
  set_shutdown_override enabled s =
      write (set_server_runtime (record no_values { shutdown_override = some (some enabled) }))
        (record s { shutdown_override = some enabled })

  -- `on_routed_traffic`; `uuid` is a fresh `str(uuid.uuid4())`.
  unfoldable pub on_routed_traffic : ℕ → String → ServerRuntime B → ServerRuntime B
  on_routed_traffic now uuid s =
      let active = record s { last_activity = now } in
      if s.config.adopt_on_traffic && not s.owned
      then (let cycle = some (keep_cycle s.cycle_id uuid) in
          write (log_power_event external_change "adopted" "proxy" true) (
            write
              (set_server_runtime (record no_values { owned = some true; cycle_id = some cycle }))
              (record active { owned = true; cycle_id = cycle })))
      else active

  -- `note_service_ready`
  unfoldable pub note_service_ready : ℕ → ServerRuntime B → ServerRuntime B
  note_service_ready now s =
      if is_on s.power_state
      then s
      else write (log_power_event state_sync "service_ready" "proxy" true) (
          write (set_server_runtime (record no_values { power_state = some on }))
            (set_state now on s))

module _ {B : Type 0} (api : PowerBackend B) where
  -- `power_on`, on what the backend answered
  unfoldable pub after_power_on :
      String → String → String → Bool → ServerRuntime B → ServerRuntime B
  after_power_on reason initiated_by uuid true s =
      write (log_power_event power_on reason initiated_by true) (
        write
          (set_server_runtime (record no_values {
            owned = some true;
            shutdown_override = some none;
            cycle_id = some (some uuid);
          }))
          (record s { owned = true; shutdown_override = none; cycle_id = some uuid }))
  after_power_on reason initiated_by uuid false s =
      write (log_power_event power_on reason initiated_by false) (record s { transient = none })

  unfoldable pub issue_power_on :
      String → String → String → ServerRuntime B → Bool × ServerRuntime B
  unfolding after_power_on
  issue_power_on reason initiated_by uuid s =
      let (ok, backend) = api.power_on s.backend in
      (
        ok,
        after_power_on reason initiated_by uuid ok
            (record s { transient = some powering_on; backend = backend }),
      )

  -- `maybe_power_on`: `now - last <= cooldown` refuses.
  unfoldable pub maybe_power_on : ℕ → String → String → ServerRuntime B → Bool × ServerRuntime B
  unfolding issue_power_on
  maybe_power_on now reason uuid s =
      if leb now (s.last_power_on_attempt + s.config.power_on_cooldown)
      then (false, s)
      else issue_power_on reason "proxy" uuid (record s { last_power_on_attempt = now })

  unfoldable pub after_power_off : String → String → Bool → ServerRuntime B → ServerRuntime B
  after_power_off reason initiated_by true s =
      write (log_power_event power_off reason initiated_by true) (
        write (set_server_runtime (record no_values { owned = some false }))
          (record s { owned = false }))
  after_power_off reason initiated_by false s =
      write (log_power_event power_off reason initiated_by false) (record s { transient = none })

  unfoldable pub issue_power_off : String → String → ServerRuntime B → Bool × ServerRuntime B
  unfolding after_power_off
  issue_power_off reason initiated_by s =
      let (ok, backend) = api.power_off s.backend in
      (
        ok,
        after_power_off reason initiated_by ok
            (record s { transient = some powering_off; backend = backend }),
      )

  -- `sync_state`; `healthy` says that an endpoint of the server is ready.
  unfoldable pub sync_state : ℕ → Bool → ServerRuntime B → ServerRuntime B
  sync_state now healthy s =
      let (read, backend) = api.power_state s.backend in
      let state : PowerState = if healthy then on else read in
      write (log_power_event state_sync "startup_sync" "startup" true) (
        write (set_server_runtime (record no_values { power_state = some state }))
          (set_state now state (record s { backend = backend })))

  -- `_power_sync_tick` reads the clock once more in `_set_state`.
  unfoldable pub power_sync_tick : ℕ → ℕ → ServerRuntime B → ServerRuntime B
  power_sync_tick now later s =
      let (state, backend) = api.power_state s.backend in
      let polled = record s { backend = backend; last_sync_at = some now } in
      if same_state state s.power_state
      then polled
      else write (sync_event s.transient) (
          write (set_server_runtime (record no_values { power_state = some state }))
            (set_state later state polled))
