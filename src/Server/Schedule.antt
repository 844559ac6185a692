-- ===== src/Server/Schedule.antt =====
-- relay/servers.py: the schedule, over passes of the engine in which one fire stays the last one.
use openai_ipmi_proxy.Prelude.{
  ℕ, ◌+◌, ◌≤◌, ◌≡◌, refl, ◌∙◌, sym, ap, subst, inl, inr, String, Bool, true, false, List, [], ◌∷◌,
  ◌++◌, Option, none, some, leb, arith, Bool-cases, if◌then◌else◌, string_eq,
}
use openai_ipmi_proxy.Prelude.Lists.{All, count, count-append}
use openai_ipmi_proxy.Power.Backend.{on, PowerBackend}
use openai_ipmi_proxy.Server.Runtime.{
  ServerConfig, ServerRuntime, shutdown_enabled_now, issue_power_off, after_power_off, StoreCall,
  log_power_event, power_off,
}
use openai_ipmi_proxy.Server.Shutdown.{
  can_power_off, off_if_possible, on_last_fire, schedule_tick, schedule_off_tick,
}

abbrev pub is_power_off : StoreCall → Bool
is_power_off (log_power_event power_off reason by ok) = true
is_power_off _ = false

-- The attempts to power off that the journal records; each call of the backend is recorded.
abbrev pub offs : List StoreCall → ℕ
offs = count is_power_off

-- How many power-offs a fire may still cause.
abbrev pub budget : ℕ → Option ℕ → Bool → ℕ
budget fire none deferred = if deferred then 1 else 0
budget fire (some last) deferred = if leb fire last then if deferred then 1 else 0 else 1

offs-write :
    (journal : List StoreCall) (call : StoreCall)
    → offs (journal ++ call ∷ []) ≡ offs journal + (if is_power_off call then 1 else 0)
unfolding count
offs-write journal call = ground (arith, count-append is_power_off journal (call ∷ []))

after_power_off-rest :
    {B : Type 0} (api : PowerBackend B) (reason by : String) (ok : Bool) (s : ServerRuntime B)
    → (offs (after_power_off api reason by ok s).journal ≡ offs s.journal + 1)
      × ((after_power_off api reason by ok s).config ≡ s.config)
      × ((after_power_off api reason by ok s).last_fired_cron ≡ s.last_fired_cron)
unfolding after_power_off
after_power_off-rest api reason by true s = (omega (arith, offs-write), refl, refl)
after_power_off-rest api reason by false s = (omega (arith, offs-write), refl, refl)

budget-le : (fire : ℕ) (last : Option ℕ) (deferred : Bool) → budget fire last deferred ≤ 1
budget-le fire none deferred = ground arith
budget-le fire (some last) deferred = ground arith

budget-spent :
    (fire : ℕ) (o : Option ℕ) (last : ℕ) (deferred : Bool)
    → o ≡ some last
    → fire ≤ last
    → deferred ≡ false
    → budget fire o deferred ≡ 0
budget-spent fire o last deferred e acted d = rw (e, d) (ground arith)

module _ {B : Type 0} (api : PowerBackend B) where
  unfoldable pub schedule_run : List (Bool × ℕ) → ServerRuntime B → ServerRuntime B
  schedule_run [] s = s
  schedule_run ((active, now) ∷ passes) s = schedule_run passes (schedule_off_tick api active now s)

  issue_power_off-rest :
      (reason by : String) (s : ServerRuntime B)
      → (offs (issue_power_off api reason by s).1.journal ≡ offs s.journal + 1)
        × ((issue_power_off api reason by s).1.config ≡ s.config)
        × ((issue_power_off api reason by s).1.last_fired_cron ≡ s.last_fired_cron)
  unfolding issue_power_off
  issue_power_off-rest reason by s = after_power_off-rest api reason by _ _

  can_power_off-rest :
      (s : ServerRuntime B)
      → ((can_power_off api s).1.journal ≡ s.journal)
        × ((can_power_off api s).1.config ≡ s.config)
        × ((can_power_off api s).1.last_fired_cron ≡ s.last_fired_cron)
  unfolding can_power_off
  can_power_off-rest s = ground arith

  offs-off_if_possible :
      (s : ServerRuntime B)
      → (offs (off_if_possible api s).journal ≤ offs s.journal + 1)
        × ((off_if_possible api s).config ≡ s.config)
        × ((off_if_possible api s).last_fired_cron ≡ s.last_fired_cron)
  offs-off_if_possible s =
      let before = can_power_off-rest s in
      let after = issue_power_off-rest "schedule" "proxy" (can_power_off api s).1 in
      elim (Bool-cases (can_power_off api s).0) [
        | inl may ↦
            unfold off_if_possible in
            simp may
              (omega (arith, after, ap offs before.0), after.1 ∙ before.1, after.2 ∙ before.2)
        | inr spared ↦
            unfold off_if_possible in
            simp spared (omega (arith, ap offs before.0), before.1, before.2)
      ]

  on_last_fire-budget :
      (active : Bool) (fire last : ℕ) (s : ServerRuntime B)
      → let t = on_last_fire api active fire last s in
        s.last_fired_cron ≡ some last
        → (offs t.journal + budget fire t.last_fired_cron t.schedule_deferred
            ≤ offs s.journal + budget fire s.last_fired_cron s.schedule_deferred)
          × (t.config ≡ s.config)
  unfolding on_last_fire
  on_last_fire-budget active fire last s e = ground (arith, offs-off_if_possible s, e)

  -- In these passes the schedule's last fire is `fire`, which does not lie ahead of the clock.
  abbrev pub StaysAt : Option (ℕ → ℕ) → ℕ → Bool × ℕ → Type 0
  StaysAt none fire pass = Unit
  StaysAt (some last_fire) fire pass = (last_fire pass.1 ≡ fire) × (fire ≤ pass.1)

  schedule_tick-budget :
      (active : Bool) (now fire : ℕ) (cron : Option (ℕ → ℕ)) (last : Option ℕ) (s : ServerRuntime B)
      → let t = schedule_tick api active now cron last s in
        StaysAt cron fire (active, now)
        → s.last_fired_cron ≡ last
        → (offs t.journal + budget fire t.last_fired_cron t.schedule_deferred
            ≤ offs s.journal + budget fire s.last_fired_cron s.schedule_deferred)
          × (t.config ≡ s.config)
  unfolding schedule_tick
  schedule_tick-budget active now fire none last s h e = (omega arith, refl)
  schedule_tick-budget active now fire (some last_fire) none s h e = ground (arith, e, h)
  schedule_tick-budget active now fire (some last_fire) (some last) s h e =
      rw h.0 (on_last_fire-budget active fire last s e)

  schedule_run-budget :
      (fire : ℕ) (passes : List (Bool × ℕ)) (s : ServerRuntime B)
      → All (StaysAt s.config.cron fire) passes
      → offs (schedule_run passes s).journal
        ≤ offs s.journal + budget fire s.last_fired_cron s.schedule_deferred
  unfolding schedule_run schedule_off_tick
  schedule_run-budget fire [] s h = omega arith
  schedule_run-budget fire ((active, now) ∷ passes) s h =
      let (spent, same) =
        schedule_tick-budget active now fire s.config.cron s.last_fired_cron s h.0 refl in
      omega (
        arith,
        spent,
        schedule_run-budget fire passes (schedule_off_tick api active now s)
            (subst (λ (c : ServerConfig). All (StaysAt c.cron fire) passes) (sym same) h.1),
      )

  -- Over any passes of the schedule check during which one fire stays the last one and does not lie ahead of the wall clock, with or without activity, the check issues at most one power-off; and none if the fire was already acted on and no power-off is deferred.
  pub schedule_run_once :
      (fire : ℕ) (passes : List (Bool × ℕ)) (s : ServerRuntime B)
      → All (StaysAt s.config.cron fire) passes
      → (offs (schedule_run passes s).journal ≤ offs s.journal + 1)
        × ((last : ℕ)
            → s.last_fired_cron ≡ some last
            → fire ≤ last
            → s.schedule_deferred ≡ false
            → offs (schedule_run passes s).journal ≤ offs s.journal)
  schedule_run_once fire passes s h =
      let bound = schedule_run-budget fire passes s h in
      (
        omega (arith, bound, budget-le fire s.last_fired_cron s.schedule_deferred),
        λ last l acted d.
            omega (
              arith,
              bound,
              budget-spent fire s.last_fired_cron last s.schedule_deferred l acted d,
            ),
      )

  pub off_if_possible-issues :
      (s : ServerRuntime B)
      → s.owned ≡ true
      → shutdown_enabled_now s ≡ true
      → (api.power_state s.backend).0 ≡ on
      → offs (off_if_possible api s).journal ≡ offs s.journal + 1
  off_if_possible-issues s owned enabled verified =
      let may : (can_power_off api s).0 ≡ true =
        unfold can_power_off in ground (arith, owned, enabled, verified) in
      unfold off_if_possible in
      simp may (
        omega (
          arith,
          issue_power_off-rest "schedule" "proxy" (can_power_off api s).1,
          ap offs (can_power_off-rest s).0,
        ))
