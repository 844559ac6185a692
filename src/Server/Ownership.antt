-- ===== src/Server/Ownership.antt =====
-- relay/servers.py: a server that the proxy does not own, over everything that can happen to it.
use openai_ipmi_proxy.Prelude.{
  ℕ, ◌≡◌, refl, ◌∙◌, ap, String, Bool, false, List, [], ◌∷◌, some, arith, if◌then◌else◌, string_eq,
}
use openai_ipmi_proxy.Power.Backend.{PowerState, on, PowerBackend}
use openai_ipmi_proxy.Server.Runtime.{
  ServerConfig, ServerRuntime, issue_power_off, on_routed_traffic, note_service_ready,
  set_shutdown_override, power_sync_tick, sync_state, set_state, after_power_off,
}
use openai_ipmi_proxy.Prelude.Lists.{All}
use openai_ipmi_proxy.Server.Frames.{is_own_off, own_offs, own_offs-append, StaysForeign}
use openai_ipmi_proxy.Server.Safety.{shutdown_tick-Spares}
use openai_ipmi_proxy.Server.Events.{
  Event, startup, traffic, service_ready, override, wake, manual_on, manual_off, poll, shutdown,
  step, run,
}

-- The events but a wake and a power-on by hand
abbrev pub IsPassive : Event → Type 0
IsPassive (wake now uuid) = ⊥
IsPassive (manual_on uuid) = ⊥
IsPassive _ = Unit

module _ {B : Type 0} (api : PowerBackend B) where
  on_routed_traffic-StaysForeign :
      (now : ℕ) (uuid : String) (s : ServerRuntime B)
      → s.config.adopt_on_traffic ≡ false
      → s.owned ≡ false
      → StaysForeign s (on_routed_traffic now uuid s)
  unfolding on_routed_traffic
  on_routed_traffic-StaysForeign now uuid s never foreign = ground (arith, never, foreign)

  set_state-StaysForeign :
      (now : ℕ) (p : PowerState) (s : ServerRuntime B)
      → s.owned ≡ false
      → StaysForeign s (set_state now p s)
  unfolding set_state
  set_state-StaysForeign now p s foreign = ground (arith, foreign)

  note_service_ready-StaysForeign :
      (now : ℕ) (s : ServerRuntime B) → s.owned ≡ false → StaysForeign s (note_service_ready now s)
  unfolding note_service_ready is_own_off
  note_service_ready-StaysForeign now s foreign =
      grind (arith, own_offs-append, set_state-StaysForeign now on s foreign)

  set_shutdown_override-StaysForeign :
      (enabled : Bool) (s : ServerRuntime B)
      → s.owned ≡ false
      → StaysForeign s (set_shutdown_override enabled s)
  unfolding set_shutdown_override is_own_off
  set_shutdown_override-StaysForeign enabled s foreign = grind (arith, own_offs-append, foreign)

  manual_off-StaysForeign :
      (s : ServerRuntime B)
      → s.owned ≡ false
      → StaysForeign s (issue_power_off api "manual" "monitor-ui" s).1
  unfolding issue_power_off after_power_off is_own_off
  manual_off-StaysForeign s foreign = grind (arith, own_offs-append, foreign)

  power_sync_tick-StaysForeign :
      (now later : ℕ) (s : ServerRuntime B)
      → s.owned ≡ false
      → StaysForeign s (power_sync_tick api now later s)
  unfolding power_sync_tick is_own_off
  power_sync_tick-StaysForeign now later s foreign =
      let polled = record s { backend = (api.power_state s.backend).1; last_sync_at = some now } in
      grind (
        arith,
        own_offs-append,
        set_state-StaysForeign later (api.power_state s.backend).0 polled foreign,
      )

  sync_state-StaysForeign :
      (now : ℕ) (healthy : Bool) (s : ServerRuntime B)
      → s.owned ≡ false
      → StaysForeign s (sync_state api now healthy s)
  unfolding sync_state is_own_off
  sync_state-StaysForeign now healthy s foreign =
      let read = record s { backend = (api.power_state s.backend).1 } in
      grind (
        arith,
        own_offs-append,
        set_state-StaysForeign now (if healthy then on else (api.power_state s.backend).0) read
            foreign,
      )

  step-StaysForeign :
      (e : Event) (s : ServerRuntime B)
      → s.config.adopt_on_traffic ≡ false
      → IsPassive e
      → s.owned ≡ false
      → StaysForeign s (step api e s)
  unfolding step
  step-StaysForeign (startup now healthy) s never p foreign =
      sync_state-StaysForeign now healthy s foreign
  step-StaysForeign (traffic now uuid) s never p foreign =
      on_routed_traffic-StaysForeign now uuid s never foreign
  step-StaysForeign (service_ready now) s never p foreign =
      note_service_ready-StaysForeign now s foreign
  step-StaysForeign (override enabled) s never p foreign =
      set_shutdown_override-StaysForeign enabled s foreign
  step-StaysForeign (wake now uuid) s never p foreign = absurd p
  step-StaysForeign (manual_on uuid) s never p foreign = absurd p
  step-StaysForeign manual_off s never p foreign = manual_off-StaysForeign s foreign
  step-StaysForeign (poll now later) s never p foreign =
      power_sync_tick-StaysForeign now later s foreign
  step-StaysForeign (shutdown active wall active_later now) s never p foreign =
      let spared =
        shutdown_tick-Spares api active wall active_later now s (ground (arith, foreign)) in
      record {
        config = spared.config;
        owned = spared.owned ∙ foreign;
        own_offs = ap own_offs spared.journal;
      }

  -- A server that the proxy does not own, and whose configuration does not adopt on traffic, through any events but a wake and a power-on by hand: it is never owned, and the proxy never issues a power-off of its own, whatever the traffic, the schedule, the override and the polls.
  pub run-StaysForeign :
      (events : List Event) (s : ServerRuntime B)
      → s.config.adopt_on_traffic ≡ false
      → All IsPassive events
      → s.owned ≡ false
      → StaysForeign s (run api events s)
  unfolding run
  run-StaysForeign [] s never passive foreign = record {
    config = refl;
    owned = foreign;
    own_offs = refl;
  }
  run-StaysForeign (e ∷ events) s never passive foreign =
      let first = step-StaysForeign e s never passive.0 foreign in
      let rest =
        run-StaysForeign events (step api e s)
          (ap (λ (c : ServerConfig). c.adopt_on_traffic) first.config ∙ never) passive.1
          first.owned in
      record {
        config = rest.config ∙ first.config;
        owned = rest.owned;
        own_offs = rest.own_offs ∙ first.own_offs;
      }
