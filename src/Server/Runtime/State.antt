-- ===== src/Server/Runtime/State.antt =====
-- relay/servers.py: the state of `ServerRuntime`, its configuration, and its calls of the store.
use openai_ipmi_proxy.Prelude.{ℕ, String, Bool, false, List, [], Option, none}
use openai_ipmi_proxy.Power.Backend.{PowerState, unknown}

-- `_TRANSIENT_ON` and `_TRANSIENT_OFF`
pub data Transient : Type 0 where
  powering_on powering_off : Transient

-- A keyword of `set_server_runtime` that is left out is `none`.
pub record RuntimeValues : Type 0 where
  pub power_state : Option PowerState
  pub owned : Option Bool
  pub shutdown_override : Option (Option Bool)
  pub cycle_id : Option (Option String)

abbrev pub no_values : RuntimeValues
no_values = record { power_state = none; owned = none; shutdown_override = none; cycle_id = none }

-- The actions that `log_power_event` is called with.
pub data PowerAction : Type 0 where
  power_on power_off state_sync external_change : PowerAction

pub data StoreCall : Type 0 where
  set_server_runtime : RuntimeValues → StoreCall
  log_power_event : PowerAction → String → String → Bool → StoreCall

-- `cron` is `CronSchedule.last_fire_before` of the schedule, on times of the wall clock.
pub record ServerConfig : Type 0 where
  pub idle_timeout : ℕ
  pub shutdown_enabled : Bool
  pub adopt_on_traffic : Bool
  pub power_on_cooldown : ℕ
  pub cron : Option (ℕ → ℕ)

pub record ServerRuntime (B : Type 0) : Type 0 where
  pub config : ServerConfig
  pub backend : B
  pub power_state : PowerState
  pub transient : Option Transient
  pub powered_on_at : Option ℕ
  pub powered_off_at : Option ℕ
  pub owned : Bool
  pub shutdown_override : Option Bool
  pub cycle_id : Option String
  pub last_fired_cron : Option ℕ
  pub schedule_deferred : Bool
  pub last_activity : ℕ
  pub last_power_on_attempt : ℕ
  pub last_sync_at : Option ℕ
  pub journal : List StoreCall

-- The row that `reconcile_servers` returns for the server.
pub record ServerRuntimeRow : Type 0 where
  pub power_state : Option String
  pub owned : Bool
  pub shutdown_override : Option Bool
  pub cycle_id : Option String

-- `__init__`
unfoldable pub init : {B : Type 0} → ServerConfig → B → ℕ → ServerRuntime B
init config backend now = record {
  config = config;
  backend = backend;
  power_state = unknown;
  transient = none;
  powered_on_at = none;
  powered_off_at = none;
  owned = false;
  shutdown_override = none;
  cycle_id = none;
  last_fired_cron = none;
  schedule_deferred = false;
  last_activity = now;
  last_power_on_attempt = 0;
  last_sync_at = none;
  journal = [];
}
