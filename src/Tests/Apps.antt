-- ===== src/Tests/Apps.antt =====
-- relay/main.py: the application of the small configuration, and its handlers.
use openai_ipmi_proxy.Prelude.{◌≡◌, ◌↔◌, refl, String, true, false, [], ◌∷◌, none, some, string_eq}
use openai_ipmi_proxy.Prelude.Int.{ℤ, pos}
use openai_ipmi_proxy.Prelude.Lists.{All}
use openai_ipmi_proxy.Prelude.Value.{Value, int, text, object, field, end, Fields, get_field}
use openai_ipmi_proxy.Power.Backend.{on}
use openai_ipmi_proxy.Power.Noop.{NoopBackend, noop_backend}
use openai_ipmi_proxy.Queue.Invariant.{IsValid}
use openai_ipmi_proxy.Server.Runtime.{ServerConfig, init as init_server}
use openai_ipmi_proxy.App.Setup.{RelayApp, init, setup}
use openai_ipmi_proxy.App.Wired.{IsWired, load_config-IsWired}
use openai_ipmi_proxy.App.Relay.{Published, Relay}
use openai_ipmi_proxy.App.Dispatch.{Request, proxy, ws_proxy}
use openai_ipmi_proxy.App.Handled.{Handled, mirrored, untracked, proxy-Handled, ws_proxy-mirrors}
use openai_ipmi_proxy.App.Actions.{
  monitor_power, monitor_release, monitor_timeout, healthz, healthy,
}
use openai_ipmi_proxy.App.Effects.{power, perform, refused_changes_nothing}
use openai_ipmi_proxy.App.Health.{
  IsRecent, healthz-healthy, with_timeout, monitor_timeout-applies, ReleaseOutcome,
  monitor_release-outcome,
}
use openai_ipmi_proxy.Tests.Queues.{running_queue, running_queue-IsValid}
use openai_ipmi_proxy.Tests.Configs.{exact, outside, config, disk, loaded, exact-OrderedLiterals}

load_config-IsWired_example :
    (app : RelayApp ℤ) × (setup config (init config) ≡ some app) × IsWired config app
load_config-IsWired_example =
    load_config-IsWired exact outside exact-OrderedLiterals disk [] config loaded

abbrev machine : NoopBackend
machine = record { state = on; actions = [] }

abbrev always_on : ServerConfig
always_on = record {
  idle_timeout = 600_000;
  shutdown_enabled = true;
  adopt_on_traffic = true;
  power_on_cooldown = 30_000;
  cron = none;
}

abbrev chat : Published
chat = record {
  path_prefix = "/v1";
  server = "box";
  service_url = "http://gpu:8000";
  queue = running_queue;
  read_timeout = 0;
  last_manager_tick = some 58_000;
}

abbrev relay : Relay NoopBackend
relay = record {
  unknown_path_policy = "allow";
  servers = ("box", record (init_server always_on machine 0) { last_sync_at = some 50_000 }) ∷ [];
  endpoints = ("chat", chat) ∷ [];
  catch_all = some "chat";
  unknown_tracker = [];
  target_read_timeout = 0;
  started_at = 0;
  store_degraded = false;
}

-- A request that no prefix matches
abbrev models_request : Request
models_request = record {
  path = "models";
  method = "GET";
  client_ip = "10.0.0.1";
  user_agent = "curl";
}

proxy-Handled_example :
    Handled 60_000 "cycle-1" models_request relay (proxy 60_000 "cycle-1" models_request relay)
proxy-Handled_example = proxy-Handled 60_000 "cycle-1" models_request relay

ws_proxy-mirrors_example :
    ((ws_proxy 60_000 "cycle-1" models_request relay).0
      ≡ mirrored 60_000 "cycle-1" models_request relay
          (proxy 60_000 "cycle-1" models_request relay).0)
    × ((ws_proxy 60_000 "cycle-1" models_request relay).1
        ≡ untracked 60_000 "cycle-1" models_request relay
            (proxy 60_000 "cycle-1" models_request relay).1)
ws_proxy-mirrors_example = ws_proxy-mirrors 60_000 "cycle-1" models_request relay

-- The body `{"client": "unknown", "session": …}`
abbrev held : String → Fields
held session = field "client" (text "unknown") (field "session" (text session) end)

-- How a list would be printed, which no example needs
abbrev no_repr : Value → String
no_repr v = ""

refused_changes_nothing_example :
    (perform noop_backend no_repr 60_000 "cycle-1" relay (power (some (object (held "b"))))).1
    ≡ relay
unfolding perform monitor_power get_field
refused_changes_nothing_example =
    refused_changes_nothing noop_backend no_repr 60_000 "cycle-1" relay
      (power (some (object (held "b")))) tt

healthz-healthy_example : (healthz 60_000 relay ≡ healthy false) ↔ (
    All (λ p. IsRecent 60_000 5_000 p.1.last_manager_tick) relay.endpoints
    × All (λ p. IsRecent 60_000 15_000 p.1.last_sync_at) relay.servers
    × (false ≡ relay.store_degraded))
healthz-healthy_example = healthz-healthy 60_000 relay false

abbrev new_timeout : Fields
new_timeout = field "read_timeout" (int (pos 30)) end

monitor_timeout-applies_example :
    ((fields : Fields) × (some (object new_timeout) ≡ some (object fields))
      × (get_field "read_timeout" fields ≡ some (int (pos 30))))
    × ((monitor_timeout noop_backend no_repr (some (object new_timeout)) relay).1
        ≡ with_timeout noop_backend no_repr relay 30)
unfolding monitor_timeout get_field
monitor_timeout-applies_example =
    monitor_timeout-applies noop_backend no_repr relay (some (object new_timeout)) 30 refl

monitor_release-outcome_example :
    ReleaseOutcome noop_backend no_repr relay 60_000 "unknown" "a"
      (monitor_release noop_backend no_repr 60_000 (some (object (held "a"))) relay)
    × All
        (λ p. IsValid p.1.queue)
        (monitor_release noop_backend no_repr 60_000 (some (object (held "a"))) relay).1.endpoints
unfolding get_field
monitor_release-outcome_example =
    monitor_release-outcome noop_backend no_repr relay 60_000 (held "a") "unknown" "a" refl refl
      refl refl (running_queue-IsValid, tt)
