-- ===== src/Tests/Servers.antt =====
-- relay/servers.py and relay/power: a server with the scripted power backend.
use openai_ipmi_proxy.Prelude.{
  ℕ, ◌+◌, ◌≡◌, ◌≤◌, refl, true, false, List, [], ◌∷◌, map, Option, none, some, arith, string_eq,
  nat_eq,
}
use openai_ipmi_proxy.Prelude.Value.{text, object, field, end}
use openai_ipmi_proxy.Power.Backend.{on}
use openai_ipmi_proxy.Power.Noop.{NoopBackend, noop_backend}
use openai_ipmi_proxy.Power.Bmc.{BmcClient, Call, get, Response, request}
use openai_ipmi_proxy.Power.Retries.{Ends, request_lem}
use openai_ipmi_proxy.Server.Runtime.{ServerConfig, ServerRuntime, init}
use openai_ipmi_proxy.Server.Shutdown.{schedule_off_tick, shutdown_tick, idle_off_tick}
use openai_ipmi_proxy.Server.Events.{
  Event, traffic, service_ready, override, wake, poll, shutdown, run,
}
use openai_ipmi_proxy.Server.Frames.{wakes, StaysForeign}
use openai_ipmi_proxy.Server.Cooldown.{run-wakes}
use openai_ipmi_proxy.Server.Ownership.{run-StaysForeign}
use openai_ipmi_proxy.Server.Schedule.{offs, schedule_run, schedule_run_once}
use openai_ipmi_proxy.Server.Deferral.{deferred_fire_issued}
use openai_ipmi_proxy.Server.Safety.{
  Spares, shutdown_tick-Spares, IsIdleOff, idled, idle_off_tick-IsIdleOff,
}

abbrev machine_on : NoopBackend
machine_on = record { state = on; actions = [] }

-- A schedule that fires at 100 seconds, and not again in these runs
abbrev nightly : ServerConfig
nightly = record {
  idle_timeout = 600_000;
  shutdown_enabled = true;
  adopt_on_traffic = false;
  power_on_cooldown = 30_000;
  cron = some (λ now. 100_000);
}

abbrev foreign_server : ServerRuntime NoopBackend
foreign_server = init nightly machine_on 0

abbrev own_server : ServerRuntime NoopBackend
own_server = record foreign_server { owned = true; power_state = on; last_fired_cron = some 50_000 }

abbrev day : List Event
day = wake 40_000 "cycle-1" ∷ poll 45_000 45_000 ∷ override true ∷ wake 60_000 "cycle-2" ∷ []

run-wakes_example :
    (wakes (run noop_backend day own_server).journal ≤ wakes own_server.journal + 1)
    × (40_000 ≤ own_server.last_power_on_attempt
        → wakes (run noop_backend day own_server).journal ≡ wakes own_server.journal)
unfolding init
run-wakes_example =
    run-wakes noop_backend 40_000 day own_server
      ((omega arith, omega arith), (tt, (tt, ((omega arith, omega arith), tt))))

abbrev quiet_day : List Event
quiet_day =
    traffic 10_000 "c"
    ∷ service_ready 20_000
    ∷ override true
    ∷ shutdown false 200_000 false 900_000
    ∷ []

run-StaysForeign_example : StaysForeign foreign_server (run noop_backend quiet_day foreign_server)
unfolding init
run-StaysForeign_example =
    run-StaysForeign noop_backend quiet_day foreign_server refl (tt, (tt, (tt, (tt, tt)))) refl

schedule_run_once_example :
    (offs (schedule_run noop_backend ((true, 110_000) ∷ (false, 170_000) ∷ []) own_server).journal
      ≤ offs own_server.journal + 1)
    × ((last : ℕ)
        → own_server.last_fired_cron ≡ some last
        → 100_000 ≤ last
        → own_server.schedule_deferred ≡ false
        → offs
            (schedule_run noop_backend ((true, 110_000) ∷ (false, 170_000) ∷ []) own_server).journal
          ≤ offs own_server.journal)
unfolding init
schedule_run_once_example =
    schedule_run_once noop_backend 100_000 ((true, 110_000) ∷ (false, 170_000) ∷ []) own_server
      ((refl, omega arith), ((refl, omega arith), tt))

deferred_fire_issued_example :
    let active =
      schedule_run noop_backend
        ((true, 110_000) ∷ map (λ t. (true, t)) (170_000 ∷ []))
        own_server in
    let idle = schedule_off_tick noop_backend false 230_000 active in
    (active ≡ record own_server { schedule_deferred = true; last_fired_cron = some 100_000 })
    × (offs idle.journal ≡ offs own_server.journal + 1)
    × (idle.schedule_deferred ≡ false)
unfolding init
deferred_fire_issued_example =
    deferred_fire_issued noop_backend (λ now. 100_000) 100_000 110_000 50_000 230_000 (170_000 ∷ [])
      own_server refl refl (omega arith) refl (refl, tt) refl refl refl refl

shutdown_tick-Spares_example :
    Spares noop_backend foreign_server
      (shutdown_tick noop_backend false 200_000 false 900_000 foreign_server)
unfolding init
shutdown_tick-Spares_example =
    shutdown_tick-Spares noop_backend false 200_000 false 900_000 foreign_server refl

idle_off_tick-IsIdleOff_example :
    (IsIdleOff noop_backend false 900_000 own_server
      → idle_off_tick noop_backend false 900_000 own_server ≡ idled noop_backend 900_000 own_server)
    × (¬ IsIdleOff noop_backend false 900_000 own_server
        → ((idle_off_tick noop_backend false 900_000 own_server).journal ≡ own_server.journal)
          × ((idle_off_tick noop_backend false 900_000 own_server).owned ≡ own_server.owned))
    × (false ≡ true
        → idle_off_tick noop_backend false 900_000 own_server
          ≡ record own_server { last_activity = 900_000 })
idle_off_tick-IsIdleOff_example = idle_off_tick-IsIdleOff noop_backend false 900_000 own_server

abbrev on_answer : Response
on_answer = record { status_code = 200; json = some (object (field "PowerState" (text "On") end)) }

-- The first call meets a transport error, the second is answered.
abbrev second_answers : ℕ → Option Response
second_answers n = elim n [ Prim.Native.Nat.zero ↦ none | Prim.Native.Nat.suc m ↦ some on_answer ]

abbrev flaky_client : BmcClient
flaky_client = record { max_attempts = 3; network = second_answers; made = 0; calls = [] }

abbrev state_call : Call
state_call = record { method = get; path = "/redfish/v1/Systems/Self"; reset_type = none }

request_lem_example :
    Ends second_answers 0 3
      (request flaky_client state_call).0
      (request flaky_client state_call).1.made
request_lem_example = request_lem flaky_client state_call
