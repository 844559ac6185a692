-- ===== src/Server/Restart.antt =====
-- relay/servers.py: the row of a server, along everything that happens to it, and a restart from it.
use openai_ipmi_proxy.Prelude.{
  ℕ, ◌+◌, ◌≡◌, refl, String, Bool, true, false, ◌&&◌, List, [], ◌∷◌, Option, none, some, leb, arith,
  Bool-cases, inl, inr, if◌then◌else◌, string_eq,
}
use openai_ipmi_proxy.Power.Backend.{PowerState, on, off, unknown, PowerBackend}
use openai_ipmi_proxy.Server.Runtime.{
  Transient, same_state, sync_event, write, init, restore, ServerRuntimeRow, ServerConfig,
  ServerRuntime, shutdown_enabled_now, issue_power_off, issue_power_on, is_on, maybe_power_on,
  power_sync_tick, sync_state, after_power_on, after_power_off, power_on, power_off, state_sync,
  external_change,
}
use openai_ipmi_proxy.Server.Shutdown.{
  can_power_off, off_if_possible, on_last_fire, schedule_tick, schedule_off_tick, idle_off,
  idle_off_tick, shutdown_tick,
}
use openai_ipmi_proxy.Server.Events.{
  Event, startup, traffic, service_ready, override, wake, manual_on, manual_off, poll, shutdown,
  step, run,
}
use openai_ipmi_proxy.Server.Mirror.{
  update_row, replay, IsMirrored, write-IsMirrored, keep-IsMirrored, log-IsMirrored,
  state-IsMirrored, on_routed_traffic-IsMirrored, note_service_ready-IsMirrored,
  set_shutdown_override-IsMirrored,
}

module _ {B : Type 0} (api : PowerBackend B) (row : ServerRuntimeRow) where
  issue_power_on-IsMirrored :
      (reason by uuid : String) (s : ServerRuntime B)
      → IsMirrored row s
      → IsMirrored row (issue_power_on api reason by uuid s).1
  unfolding issue_power_on after_power_on update_row
  issue_power_on-IsMirrored reason by uuid s h = elim (Bool-cases (api.power_on s.backend).0) [
    | inl ok ↦ simp ok (
        log-IsMirrored row power_on reason by true _ (
          write-IsMirrored row _ _ (record {
            power_state = h.power_state;
            owned = refl;
            shutdown_override = refl;
            cycle_id = refl;
          })))
    | inr failed ↦ simp failed (
        log-IsMirrored row power_on reason by false _
          (keep-IsMirrored row s _ refl refl refl refl refl h))
  ]

  issue_power_off-IsMirrored :
      (reason by : String) (s : ServerRuntime B)
      → IsMirrored row s
      → IsMirrored row (issue_power_off api reason by s).1
  unfolding issue_power_off after_power_off update_row
  issue_power_off-IsMirrored reason by s h = elim (Bool-cases (api.power_off s.backend).0) [
    | inl ok ↦ simp ok (
        log-IsMirrored row power_off reason by true _ (
          write-IsMirrored row _ _ (record {
            power_state = h.power_state;
            owned = refl;
            shutdown_override = h.shutdown_override;
            cycle_id = h.cycle_id;
          })))
    | inr failed ↦ simp failed (
        log-IsMirrored row power_off reason by false _
          (keep-IsMirrored row s _ refl refl refl refl refl h))
  ]

  -- A call that changes nothing of what the row holds, up to a power-off it issues
  off_if_possible-IsMirrored :
      (s : ServerRuntime B) → IsMirrored row s → IsMirrored row (off_if_possible api s)
  unfolding off_if_possible can_power_off
  off_if_possible-IsMirrored s h = elim (Bool-cases (s.owned && shutdown_enabled_now s)) [
    | inl may ↦ simp may (elim (Bool-cases (is_on (api.power_state s.backend).0)) [
      | inl up ↦ simp up (
          issue_power_off-IsMirrored "schedule" "proxy" _
            (keep-IsMirrored row s _ refl refl refl refl refl h))
      | inr down ↦ simp down (keep-IsMirrored row s _ refl refl refl refl refl h)
    ])
    | inr spared ↦ simp spared h
  ]

  on_last_fire-IsMirrored :
      (active : Bool) (fire last : ℕ) (s : ServerRuntime B)
      → IsMirrored row s
      → IsMirrored row (on_last_fire api active fire last s)
  unfolding on_last_fire
  on_last_fire-IsMirrored active fire last s h = ground (arith, h, off_if_possible-IsMirrored s h)

  schedule_tick-IsMirrored :
      (active : Bool) (now : ℕ) (cron : Option (ℕ → ℕ)) (last : Option ℕ) (s : ServerRuntime B)
      → IsMirrored row s
      → IsMirrored row (schedule_tick api active now cron last s)
  unfolding schedule_tick
  schedule_tick-IsMirrored active now none last s h = h
  schedule_tick-IsMirrored active now (some last_fire_before) none s h =
      keep-IsMirrored row s _ refl refl refl refl refl h
  schedule_tick-IsMirrored active now (some last_fire_before) (some last) s h =
      on_last_fire-IsMirrored active (last_fire_before now) last s h

  schedule_off_tick-IsMirrored :
      (active : Bool) (now : ℕ) (s : ServerRuntime B)
      → IsMirrored row s
      → IsMirrored row (schedule_off_tick api active now s)
  unfolding schedule_off_tick
  schedule_off_tick-IsMirrored active now s h =
      schedule_tick-IsMirrored active now s.config.cron s.last_fired_cron s h

  if-IsMirrored :
      (b : Bool) (s t : ServerRuntime B)
      → IsMirrored row s
      → IsMirrored row t
      → IsMirrored row (if b then s else t)
  if-IsMirrored true s t h k = h
  if-IsMirrored false s t h k = k

  idle_off-IsMirrored :
      (now : ℕ) (p : PowerState) (s : ServerRuntime B)
      → IsMirrored row s
      → IsMirrored row (idle_off api now p s)
  unfolding idle_off
  idle_off-IsMirrored now on s h =
      keep-IsMirrored row (if s.owned then (issue_power_off api "idle_timeout" "proxy" s).1 else s)
        _ refl refl refl refl refl
        (if-IsMirrored s.owned _ s (issue_power_off-IsMirrored "idle_timeout" "proxy" s h) h)
  idle_off-IsMirrored now off s h = h
  idle_off-IsMirrored now unknown s h = h

  idle_off_tick-IsMirrored :
      (active : Bool) (now : ℕ) (s : ServerRuntime B)
      → IsMirrored row s
      → IsMirrored row (idle_off_tick api active now s)
  unfolding idle_off_tick
  idle_off_tick-IsMirrored active now s h =
      let polled =
        idle_off-IsMirrored now (api.power_state s.backend).0
          (record s { backend = (api.power_state s.backend).1 })
          (keep-IsMirrored row s _ refl refl refl refl refl h) in
      ground (arith, h, polled)

  power_sync_tick-IsMirrored :
      (now later : ℕ) (s : ServerRuntime B)
      → IsMirrored row s
      → IsMirrored row (power_sync_tick api now later s)
  unfolding power_sync_tick
  power_sync_tick-IsMirrored now later s h =
      elim (Bool-cases (same_state (api.power_state s.backend).0 s.power_state)) [
        | inl same ↦ simp same (keep-IsMirrored row s _ refl refl refl refl refl h)
        | inr changed ↦ simp changed (
            event-IsMirrored s.transient _ (
              state-IsMirrored row (api.power_state s.backend).0 later _
                (keep-IsMirrored row s _ refl refl refl refl refl h)))
      ]
    where
      event-IsMirrored :
          (transient : Option Transient) (t : ServerRuntime B)
          → IsMirrored row t
          → IsMirrored row (write (sync_event transient) t)
      event-IsMirrored none t m = log-IsMirrored row external_change "poll" "external" true t m
      event-IsMirrored (some by) t m = log-IsMirrored row state_sync "poll" "proxy" true t m

  sync_state-IsMirrored :
      (now : ℕ) (healthy : Bool) (s : ServerRuntime B)
      → IsMirrored row s
      → IsMirrored row (sync_state api now healthy s)
  unfolding sync_state
  sync_state-IsMirrored now healthy s h =
      log-IsMirrored row state_sync "startup_sync" "startup" true _
        (state-IsMirrored row _ now _ (keep-IsMirrored row s _ refl refl refl refl refl h))

  maybe_power_on-IsMirrored :
      (now : ℕ) (reason uuid : String) (s : ServerRuntime B)
      → IsMirrored row s
      → IsMirrored row (maybe_power_on api now reason uuid s).1
  unfolding maybe_power_on
  maybe_power_on-IsMirrored now reason uuid s h =
      elim (Bool-cases (leb now (s.last_power_on_attempt + s.config.power_on_cooldown))) [
        | inl early ↦ simp early h
        | inr due ↦ simp due (
            issue_power_on-IsMirrored reason "proxy" uuid (record s { last_power_on_attempt = now })
              (keep-IsMirrored row s _ refl refl refl refl refl h))
      ]

  step-IsMirrored :
      (e : Event) (s : ServerRuntime B) → IsMirrored row s → IsMirrored row (step api e s)
  unfolding step
  step-IsMirrored (startup now healthy) s h = sync_state-IsMirrored now healthy s h
  step-IsMirrored (traffic now uuid) s h = on_routed_traffic-IsMirrored row now uuid s h
  step-IsMirrored (service_ready now) s h = note_service_ready-IsMirrored row now s h
  step-IsMirrored (override enabled) s h = set_shutdown_override-IsMirrored row enabled s h
  step-IsMirrored (wake now uuid) s h = maybe_power_on-IsMirrored now "request_wake" uuid s h
  step-IsMirrored (manual_on uuid) s h = issue_power_on-IsMirrored "manual" "monitor-ui" uuid s h
  step-IsMirrored manual_off s h = issue_power_off-IsMirrored "manual" "monitor-ui" s h
  step-IsMirrored (poll now later) s h = power_sync_tick-IsMirrored now later s h
  step-IsMirrored (shutdown active wall active_later now) s h =
      unfold shutdown_tick in
      idle_off_tick-IsMirrored active_later now _ (schedule_off_tick-IsMirrored active wall s h)

  run-IsMirrored :
      (events : List Event) (s : ServerRuntime B)
      → IsMirrored row s
      → IsMirrored row (run api events s)
  unfolding run
  run-IsMirrored [] s h = h
  run-IsMirrored (e ∷ events) s h = run-IsMirrored events (step api e s) (step-IsMirrored e s h)

  -- A server that starts from its row, goes through any events, and is made again from the row as the calls of the store have left it, whatever its new configuration and backend: the power state, the ownership, the override of the auto-off and the power cycle are the ones it had.
  pub restart_keeps :
      (events : List Event) (config later_config : ServerConfig) (backend later_backend : B)
      (now later : ℕ)
      → let s = run api events (restore row (init config backend now)) in
        let t = restore (replay s.journal row) (init later_config later_backend later) in
        (t.power_state ≡ s.power_state)
        × (t.owned ≡ s.owned)
        × (t.shutdown_override ≡ s.shutdown_override)
        × (t.cycle_id ≡ s.cycle_id)
  unfolding restore init
  restart_keeps events config later_config backend later_backend now later =
      let first : IsMirrored row (restore row (init config backend now)) =
        unfold replay in
        record { power_state = refl; owned = refl; shutdown_override = refl; cycle_id = refl } in
      let m = run-IsMirrored events (restore row (init config backend now)) first in
      (m.power_state, m.owned, m.shutdown_override, m.cycle_id)
