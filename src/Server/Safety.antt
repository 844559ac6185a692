-- ===== src/Server/Safety.antt =====
-- relay/servers.py: when the proxy powers a server off.
use openai_ipmi_proxy.Prelude.{
  ℕ, ◌+◌, ◌<◌, ◌≡◌, ◌∙◌, ◌⊎◌, inl, inr, Bool, true, false, ◌&&◌, Option, none, some, arith,
  string_eq,
}
use openai_ipmi_proxy.Power.Backend.{on, PowerBackend}
use openai_ipmi_proxy.Server.Runtime.{ServerRuntime, shutdown_enabled_now, issue_power_off}
use openai_ipmi_proxy.Server.Shutdown.{
  off_if_possible, on_last_fire, schedule_tick, schedule_off_tick, idle_off_tick, shutdown_tick,
}

module _ {B : Type 0} (api : PowerBackend B) where
  off_if_possible-Spares :
      (s : ServerRuntime B)
      → (s.owned && shutdown_enabled_now s) ≡ false
      → off_if_possible api s ≡ s
  unfolding off_if_possible
  off_if_possible-Spares s h = simp h

  -- What a tick that powers nothing off leaves as it was.
  pub record Spares (s t : ServerRuntime B) : Type 0 where
    pub journal : t.journal ≡ s.journal
    pub owned : t.owned ≡ s.owned
    pub override : t.shutdown_override ≡ s.shutdown_override
    pub config : t.config ≡ s.config

  on_last_fire-Spares :
      (active : Bool) (prev_fire last : ℕ) (s : ServerRuntime B)
      → (s.owned && shutdown_enabled_now s) ≡ false
      → Spares s (on_last_fire api active prev_fire last s)
  unfolding on_last_fire
  on_last_fire-Spares active prev_fire last s h = ground (arith, off_if_possible-Spares s h)

  schedule_tick-Spares :
      (active : Bool) (now : ℕ) (cron : Option (ℕ → ℕ)) (last : Option ℕ) (s : ServerRuntime B)
      → (s.owned && shutdown_enabled_now s) ≡ false
      → Spares s (schedule_tick api active now cron last s)
  unfolding schedule_tick
  schedule_tick-Spares active now none last s h = ground arith
  schedule_tick-Spares active now (some last_fire_before) none s h = ground arith
  schedule_tick-Spares active now (some last_fire_before) (some last) s h =
      on_last_fire-Spares active (last_fire_before now) last s h

  schedule_off_tick-Spares :
      (active : Bool) (now : ℕ) (s : ServerRuntime B)
      → (s.owned && shutdown_enabled_now s) ≡ false
      → Spares s (schedule_off_tick api active now s)
  unfolding schedule_off_tick
  schedule_off_tick-Spares active now s h =
      schedule_tick-Spares active now s.config.cron s.last_fired_cron s h

  idle_off_tick-Spares :
      (active : Bool) (now : ℕ) (s : ServerRuntime B)
      → (s.owned && shutdown_enabled_now s) ≡ false
      → Spares s (idle_off_tick api active now s)
  unfolding idle_off_tick
  idle_off_tick-Spares active now s h = ground arith

  -- A pass of the shutdown engine over a server that the proxy does not own, or whose auto-off is disabled for the power cycle, issues no power-off, logs nothing and gives no ownership, whatever the schedule, the clocks, the activity and the backend say.
  pub shutdown_tick-Spares :
      (active : Bool) (wall : ℕ) (active_later : Bool) (now : ℕ) (s : ServerRuntime B)
      → (s.owned && shutdown_enabled_now s) ≡ false
      → Spares s (shutdown_tick api active wall active_later now s)
  unfolding shutdown_tick
  shutdown_tick-Spares active wall active_later now s h =
      let first = schedule_off_tick-Spares active wall s h in
      let second =
        idle_off_tick-Spares active_later now (schedule_off_tick api active wall s)
          (ground (arith, first, h)) in
      record {
        journal = second.journal ∙ first.journal;
        owned = second.owned ∙ first.owned;
        override = second.override ∙ first.override;
        config = second.config ∙ first.config;
      }

  -- The server with its power-off issued for idleness.
  abbrev pub idled : ℕ → ServerRuntime B → ServerRuntime B
  idled now s =
      record (issue_power_off api "idle_timeout" "proxy"
        (record s { backend = (api.power_state s.backend).1 })).1 { last_activity = now }

  -- What the idle check asks for before it powers a server off.
  pub record IsIdleOff (active : Bool) (now : ℕ) (s : ServerRuntime B) : Type 0 where
    pub quiet : active ≡ false
    pub enabled : shutdown_enabled_now s ≡ true
    pub elapsed : s.last_activity + s.config.idle_timeout < now
    pub verified : (api.power_state s.backend).0 ≡ on
    pub owned : s.owned ≡ true

  idle_off_tick-cases :
      (active : Bool) (now : ℕ) (s : ServerRuntime B)
      → IsIdleOff active now s
        ⊎ (((idle_off_tick api active now s).journal ≡ s.journal)
            × ((idle_off_tick api active now s).owned ≡ s.owned))
  unfolding idle_off_tick
  idle_off_tick-cases active now s = ground arith

  -- The idle check issues a power-off if and only if the server has no activity, its auto-off is enabled, more than the idle timeout has passed since its last activity, the backend says that it is on, and the proxy owns it. Then the idle clock restarts; in every other case the journal and the ownership stay, and with activity the clock restarts too.
  pub idle_off_tick-IsIdleOff :
      (active : Bool) (now : ℕ) (s : ServerRuntime B)
      → (IsIdleOff active now s → idle_off_tick api active now s ≡ idled now s)
        × (¬ IsIdleOff active now s
            → ((idle_off_tick api active now s).journal ≡ s.journal)
              × ((idle_off_tick api active now s).owned ≡ s.owned))
        × (active ≡ true → idle_off_tick api active now s ≡ record s { last_activity = now })
  unfolding idle_off_tick
  idle_off_tick-IsIdleOff active now s = (
    λ h. ground (arith, h),
    λ other. elim (idle_off_tick-cases active now s) [
      | inl met ↦ absurd (other met)
      | inr spared ↦ spared
    ],
    λ a. ground arith,
  )
