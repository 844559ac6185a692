-- ===== src/Server/Events.antt =====
-- relay/servers.py: everything that can happen to a server, as one step for each call of the class.
use openai_ipmi_proxy.Prelude.{ℕ, String, Bool, List, [], ◌∷◌}
use openai_ipmi_proxy.Power.Backend.{PowerBackend}
use openai_ipmi_proxy.Server.Runtime.{
  ServerRuntime, issue_power_off, issue_power_on, maybe_power_on, on_routed_traffic,
  note_service_ready, set_shutdown_override, power_sync_tick, sync_state,
}
use openai_ipmi_proxy.Server.Shutdown.{shutdown_tick}

-- The readings of the clocks, the answers of `has_activity` and the fresh identifiers come with the
-- event. The manual actions are the ones of the monitor (relay/main.py, `power_action`).
pub data Event : Type 0 where
  startup : ℕ → Bool → Event
  traffic : ℕ → String → Event
  service_ready : ℕ → Event
  override : Bool → Event
  wake : ℕ → String → Event
  manual_on : String → Event
  manual_off : Event
  poll : ℕ → ℕ → Event
  shutdown : Bool → ℕ → Bool → ℕ → Event

module _ {B : Type 0} (api : PowerBackend B) where
  unfoldable pub step : Event → ServerRuntime B → ServerRuntime B
  step (startup now healthy) s = sync_state api now healthy s
  step (traffic now uuid) s = on_routed_traffic now uuid s
  step (service_ready now) s = note_service_ready now s
  step (override enabled) s = set_shutdown_override enabled s
  step (wake now uuid) s = (maybe_power_on api now "request_wake" uuid s).1
  step (manual_on uuid) s = (issue_power_on api "manual" "monitor-ui" uuid s).1
  step manual_off s = (issue_power_off api "manual" "monitor-ui" s).1
  step (poll now later) s = power_sync_tick api now later s
  step (shutdown active wall active_later now) s = shutdown_tick api active wall active_later now s

  unfoldable pub run : List Event → ServerRuntime B → ServerRuntime B
  run [] s = s
  run (e ∷ events) s = run events (step e s)
