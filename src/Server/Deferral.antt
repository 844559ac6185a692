-- ===== src/Server/Deferral.antt =====
-- relay/servers.py: a fire of the schedule that comes while the server is active.
use openai_ipmi_proxy.Prelude.{
  ℕ, ◌+◌, ◌<◌, ◌≡◌, refl, ◌∙◌, ap, true, false, List, [], ◌∷◌, map, some, arith, string_eq,
}
use openai_ipmi_proxy.Prelude.Lists.{All}
use openai_ipmi_proxy.Power.Backend.{on, PowerBackend}
use openai_ipmi_proxy.Server.Runtime.{ServerRuntime, shutdown_enabled_now}
use openai_ipmi_proxy.Server.Shutdown.{
  off_if_possible, on_last_fire, schedule_tick, schedule_off_tick,
}
use openai_ipmi_proxy.Server.Schedule.{offs, schedule_run, off_if_possible-issues}

module _ {B : Type 0} (api : PowerBackend B) (last_fire : ℕ → ℕ) (fire : ℕ) where
  -- The server with the fire put off.
  abbrev deferring : ServerRuntime B → ServerRuntime B
  deferring s = record s { schedule_deferred = true; last_fired_cron = some fire }

  defer :
      (now last : ℕ) (s : ServerRuntime B)
      → s.config.cron ≡ some last_fire
      → last_fire now ≡ fire
      → s.last_fired_cron ≡ some last
      → last < fire
      → schedule_off_tick api true now s ≡ deferring s
  unfolding schedule_off_tick schedule_tick on_last_fire
  defer now last s cron at l ahead = ground arith

  stay_deferred :
      (now : ℕ) (s : ServerRuntime B)
      → s.config.cron ≡ some last_fire
      → last_fire now ≡ fire
      → schedule_off_tick api true now (deferring s) ≡ deferring s
  unfolding schedule_off_tick schedule_tick on_last_fire
  stay_deferred now s cron at = ground arith

  issue_deferred :
      (now : ℕ) (s : ServerRuntime B)
      → s.config.cron ≡ some last_fire
      → last_fire now ≡ fire
      → schedule_off_tick api false now (deferring s)
        ≡ record (off_if_possible api (deferring s)) { schedule_deferred = false }
  unfolding schedule_off_tick schedule_tick on_last_fire
  issue_deferred now s cron at = ground arith

  -- Only active passes: the fire stays put off.
  run_active :
      (busy : List ℕ) (s : ServerRuntime B)
      → s.config.cron ≡ some last_fire
      → All (λ t. last_fire t ≡ fire) busy
      → schedule_run api (map (λ t. (true, t)) busy) (deferring s) ≡ deferring s
  unfolding schedule_run
  run_active [] s cron h = refl
  run_active (t ∷ busy) s cron h =
      ap (schedule_run api (map (λ t. (true, t)) busy)) (stay_deferred t s cron h.0)
      ∙ run_active busy s cron h.1

  -- A fire of the schedule that comes while the server is active is put off: after that pass and any number of further active passes no power-off was issued, and the state differs only in that the fire is deferred and acted on. The first idle pass after them issues it: exactly one power-off, and nothing stays deferred. The server is owned with its auto-off enabled, and its backend verifies that it is on.
  pub deferred_fire_issued :
      (first last now : ℕ) (busy : List ℕ) (s : ServerRuntime B)
      → s.config.cron ≡ some last_fire
      → s.last_fired_cron ≡ some last
      → last < fire
      → last_fire first ≡ fire
      → All (λ t. last_fire t ≡ fire) busy
      → last_fire now ≡ fire
      → s.owned ≡ true
      → shutdown_enabled_now s ≡ true
      → (api.power_state s.backend).0 ≡ on
      → let active = schedule_run api ((true, first) ∷ map (λ t. (true, t)) busy) s in
        let idle = schedule_off_tick api false now active in
        (active ≡ record s { schedule_deferred = true; last_fired_cron = some fire })
        × (offs idle.journal ≡ offs s.journal + 1)
        × (idle.schedule_deferred ≡ false)
  unfolding schedule_run
  deferred_fire_issued first last now busy s cron l ahead f h at owned enabled verified =
      let active =
        ap (schedule_run api (map (λ t. (true, t)) busy)) (defer first last s cron f l ahead)
        ∙ run_active busy s cron h in
      let idle = ap (schedule_off_tick api false now) active ∙ issue_deferred now s cron at in
      (
        active,
        ap (λ (t : ServerRuntime B). offs t.journal) idle
            ∙ off_if_possible-issues api (deferring s) owned enabled verified,
        ap (λ (t : ServerRuntime B). t.schedule_deferred) idle,
      )
