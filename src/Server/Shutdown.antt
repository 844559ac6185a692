-- ===== src/Server/Shutdown.antt =====
-- relay/servers.py: the shutdown engine.
use openai_ipmi_proxy.Prelude.{
  ℕ, ◌+◌, Bool, true, false, not, ◌&&◌, Option, none, some, leb, if◌then◌else◌, string_eq,
}
use openai_ipmi_proxy.Power.Backend.{PowerState, on, off, unknown, PowerBackend}
use openai_ipmi_proxy.Server.Runtime.{ServerRuntime, shutdown_enabled_now, issue_power_off, is_on}

-- Each time the code asks `has_activity()` the answer is a parameter, since requests come and go at
-- every `await` in between.
module _ {B : Type 0} (api : PowerBackend B) where
  -- `_can_power_off`
  unfoldable pub can_power_off : ServerRuntime B → Bool × ServerRuntime B
  can_power_off s =
      if s.owned && shutdown_enabled_now s
      then (let (actual, backend) = api.power_state s.backend in
          (is_on actual, record s { backend = backend }))
      else (false, s)

  -- `if await self._can_power_off(): await self.power_off(reason="schedule")`
  unfoldable pub off_if_possible : ServerRuntime B → ServerRuntime B
  unfolding can_power_off
  off_if_possible s =
      let (may, s') = can_power_off s in
      if may then (issue_power_off api "schedule" "proxy" s').1 else s'

  -- The cases of `_schedule_off_tick` once the last fire is known.
  unfoldable pub on_last_fire : Bool → ℕ → ℕ → ServerRuntime B → ServerRuntime B
  on_last_fire active prev_fire last s =
      if leb prev_fire last
      then if s.schedule_deferred && not active
        then record (off_if_possible s) { schedule_deferred = false }
        else s
      else if active
      then record s { schedule_deferred = true; last_fired_cron = some prev_fire }
      else record (off_if_possible s) {
        last_fired_cron = some prev_fire;
        schedule_deferred = false;
      }

  unfoldable pub schedule_tick :
      Bool → ℕ → Option (ℕ → ℕ) → Option ℕ → ServerRuntime B → ServerRuntime B
  schedule_tick active now none last s = s
  schedule_tick active now (some last_fire_before) none s = record s { last_fired_cron = some now }
  schedule_tick active now (some last_fire_before) (some last) s =
      on_last_fire active (last_fire_before now) last s

  -- `_schedule_off_tick`; `now` is the wall clock.
  unfoldable pub schedule_off_tick : Bool → ℕ → ServerRuntime B → ServerRuntime B
  schedule_off_tick active now s = schedule_tick active now s.config.cron s.last_fired_cron s

  -- The branches of `_idle_off_tick` on the state that the backend reports.
  unfoldable pub idle_off : ℕ → PowerState → ServerRuntime B → ServerRuntime B
  idle_off now on s =
      record (if s.owned then (issue_power_off api "idle_timeout" "proxy" s).1 else s) {
        last_activity = now;
      }
  idle_off now off s = s
  idle_off now unknown s = s

  -- `_idle_off_tick`: `now - last_activity <= idle_timeout` is too early.
  unfoldable pub idle_off_tick : Bool → ℕ → ServerRuntime B → ServerRuntime B
  unfolding idle_off
  idle_off_tick active now s =
      if active
      then record s { last_activity = now }
      else if not (shutdown_enabled_now s)
      then s
      else if leb now (s.last_activity + s.config.idle_timeout)
      then s
      else (let (actual, backend) = api.power_state s.backend in
          idle_off now actual (record s { backend = backend }))

  -- `_shutdown_tick`
  unfoldable pub shutdown_tick : Bool → ℕ → Bool → ℕ → ServerRuntime B → ServerRuntime B
  shutdown_tick active wall active_later now s =
      idle_off_tick active_later now (schedule_off_tick active wall s)
