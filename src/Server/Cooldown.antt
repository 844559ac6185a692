-- ===== src/Server/Cooldown.antt =====
-- relay/servers.py: the cooldown of the power-on, over everything that can happen to a server.
use openai_ipmi_proxy.Prelude.{
  ℕ, ◌+◌, ◌≤◌, ◌≡◌, refl, ◌∙◌, sym, subst, String, Bool, List, [], ◌∷◌, Option, none, some, arith,
  ◌⊎◌, inl, inr, if◌then◌else◌, ◌==◌, string_eq,
}
use openai_ipmi_proxy.Power.Backend.{on, PowerBackend}
use openai_ipmi_proxy.Server.Runtime.{
  ServerConfig, ServerRuntime, issue_power_off, issue_power_on, maybe_power_on, power_sync_tick,
  sync_state, after_power_on, after_power_off,
}
use openai_ipmi_proxy.Server.Shutdown.{
  can_power_off, off_if_possible, on_last_fire, schedule_tick, schedule_off_tick, idle_off,
  idle_off_tick, shutdown_tick,
}
use openai_ipmi_proxy.Prelude.Lists.{All}
use openai_ipmi_proxy.Server.Frames.{
  is_wake, wakes, wakes-append, Frame, Frame-trans, set_state-Frame, on_routed_traffic-Frame,
  note_service_ready-Frame, set_shutdown_override-Frame,
}
use openai_ipmi_proxy.Server.Events.{
  Event, startup, traffic, service_ready, override, wake, manual_on, manual_off, poll, shutdown,
  step, run,
}

module _ {B : Type 0} (api : PowerBackend B) where
  issue_power_on-wakes :
      (reason by uuid : String) (s : ServerRuntime B)
      → let t = (issue_power_on api reason by uuid s).1 in
        (t.config ≡ s.config)
        × (t.last_power_on_attempt ≡ s.last_power_on_attempt)
        × (wakes t.journal ≡ wakes s.journal + (if by == "proxy" then 1 else 0))
  unfolding issue_power_on after_power_on is_wake
  issue_power_on-wakes reason by uuid s = grind (arith, wakes-append)

  issue_power_off-Frame :
      (reason by : String) (s : ServerRuntime B) → Frame s (issue_power_off api reason by s).1
  unfolding issue_power_off after_power_off is_wake
  issue_power_off-Frame reason by s = grind (arith, wakes-append)

  power_sync_tick-Frame :
      (now later : ℕ) (s : ServerRuntime B) → Frame s (power_sync_tick api now later s)
  unfolding power_sync_tick is_wake
  power_sync_tick-Frame now later s = grind (
    arith,
    wakes-append,
    set_state-Frame later (api.power_state s.backend).0
        (record s { backend = (api.power_state s.backend).1; last_sync_at = some now }),
  )

  sync_state-Frame :
      (now : ℕ) (healthy : Bool) (s : ServerRuntime B) → Frame s (sync_state api now healthy s)
  unfolding sync_state is_wake
  sync_state-Frame now healthy s = grind (
    arith,
    wakes-append,
    set_state-Frame now (if healthy then on else (api.power_state s.backend).0)
        (record s { backend = (api.power_state s.backend).1 }),
  )

  off_if_possible-Frame : (s : ServerRuntime B) → Frame s (off_if_possible api s)
  unfolding off_if_possible can_power_off
  off_if_possible-Frame s = grind (
    arith,
    issue_power_off-Frame "schedule" "proxy" (record s { backend = (api.power_state s.backend).1 }),
  )

  schedule_tick-Frame :
      (active : Bool) (now : ℕ) (cron : Option (ℕ → ℕ)) (last : Option ℕ) (s : ServerRuntime B)
      → Frame s (schedule_tick api active now cron last s)
  unfolding schedule_tick on_last_fire
  schedule_tick-Frame active now none last s = ground arith
  schedule_tick-Frame active now (some last_fire_before) none s = ground arith
  schedule_tick-Frame active now (some last_fire_before) (some last) s =
      ground (arith, off_if_possible-Frame s)

  idle_off_tick-Frame :
      (active : Bool) (now : ℕ) (s : ServerRuntime B) → Frame s (idle_off_tick api active now s)
  unfolding idle_off_tick idle_off
  idle_off_tick-Frame active now s = grind (
    arith,
    issue_power_off-Frame "idle_timeout" "proxy"
        (record s { backend = (api.power_state s.backend).1 }),
  )

  shutdown_tick-Frame :
      (active : Bool) (wall : ℕ) (active_later : Bool) (now : ℕ) (s : ServerRuntime B)
      → Frame s (shutdown_tick api active wall active_later now s)
  unfolding shutdown_tick schedule_off_tick
  shutdown_tick-Frame active wall active_later now s =
      let t = schedule_off_tick api active wall s in
      Frame-trans s t _ (schedule_tick-Frame active wall s.config.cron s.last_fired_cron s)
        (idle_off_tick-Frame active_later now t)

  -- The times of the wakes lie in the cooldown that `from` starts.
  abbrev pub WakesWithin : ℕ → ℕ → Event → Type 0
  WakesWithin from cooldown (wake now uuid) = (from ≤ now) × (now ≤ from + cooldown)
  WakesWithin from cooldown _ = Unit

  -- A step in the window that `from` opens: the first wake in it is the only one.
  record InWindow (from : ℕ) (s t : ServerRuntime B) : Type 0 where
    config : t.config ≡ s.config
    once : from ≤ s.last_power_on_attempt → wakes t.journal ≡ wakes s.journal
    stays : from ≤ s.last_power_on_attempt → from ≤ t.last_power_on_attempt
    at_most : wakes t.journal ≤ wakes s.journal + 1
    spent : (wakes t.journal ≡ wakes s.journal) ⊎ (from ≤ t.last_power_on_attempt)

  Frame-InWindow : (from : ℕ) (s t : ServerRuntime B) → Frame s t → InWindow from s t
  Frame-InWindow from s t h = record {
    config = h.config;
    once = λ spent. h.wakes;
    stays = λ spent. omega (arith, h.attempt);
    at_most = omega (arith, h.wakes);
    spent = inl h.wakes;
  }

  maybe_power_on-InWindow :
      (now from : ℕ) (uuid : String) (s : ServerRuntime B)
      → from ≤ now
      → now ≤ from + s.config.power_on_cooldown
      → InWindow from s (maybe_power_on api now "request_wake" uuid s).1
  unfolding maybe_power_on
  maybe_power_on-InWindow now from uuid s after before =
      let issued =
        issue_power_on-wakes "request_wake" "proxy" uuid
          (record s { last_power_on_attempt = now }) in
      record {
        config = ground (arith, issued);
        once = λ spent. ground (arith, issued, spent);
        stays = λ spent. ground (arith, issued, spent);
        at_most = ground (arith, issued);
        spent = ground (arith, issued);
      }

  step-InWindow :
      (from : ℕ) (e : Event) (s : ServerRuntime B)
      → WakesWithin from s.config.power_on_cooldown e
      → InWindow from s (step api e s)
  unfolding step
  step-InWindow from (startup now healthy) s h =
      Frame-InWindow from s _ (sync_state-Frame now healthy s)
  step-InWindow from (traffic now uuid) s h =
      Frame-InWindow from s _ (on_routed_traffic-Frame now uuid s)
  step-InWindow from (service_ready now) s h =
      Frame-InWindow from s _ (note_service_ready-Frame now s)
  step-InWindow from (override enabled) s h =
      Frame-InWindow from s _ (set_shutdown_override-Frame enabled s)
  step-InWindow from (wake now uuid) s h = maybe_power_on-InWindow now from uuid s h.0 h.1
  step-InWindow from (manual_on uuid) s h =
      let issued = issue_power_on-wakes "manual" "monitor-ui" uuid s in
      Frame-InWindow from s _
        (record { config = issued.0; attempt = issued.1; wakes = omega (arith, issued.2) })
  step-InWindow from manual_off s h =
      Frame-InWindow from s _ (issue_power_off-Frame "manual" "monitor-ui" s)
  step-InWindow from (poll now later) s h =
      Frame-InWindow from s _ (power_sync_tick-Frame now later s)
  step-InWindow from (shutdown active wall active_later now) s h =
      Frame-InWindow from s _ (shutdown_tick-Frame active wall active_later now s)

  -- In any events, the manual actions included, all of whose wakes lie within one cooldown from the time `from`, the proxy wakes the server at most once; and never, if the last attempt was not before `from`.
  pub run-wakes :
      (from : ℕ) (events : List Event) (s : ServerRuntime B)
      → All (WakesWithin from s.config.power_on_cooldown) events
      → (wakes (run api events s).journal ≤ wakes s.journal + 1)
        × (from ≤ s.last_power_on_attempt → wakes (run api events s).journal ≡ wakes s.journal)
  unfolding run
  run-wakes from [] s h = (omega arith, λ spent. refl)
  run-wakes from (e ∷ events) s h =
      let first = step-InWindow from e s h.0 in
      let rest = run-wakes from events (step api e s) (
        subst (λ (c : ServerConfig). All (WakesWithin from c.power_on_cooldown) events)
          (sym first.config) h.1) in
      (
        elim first.spent [
          | inl same ↦ omega (arith, same, rest.0)
          | inr spent ↦ omega (arith, rest.1 spent, first.at_most)
        ],
        λ spent. rest.1 (first.stays spent) ∙ first.once spent,
      )
