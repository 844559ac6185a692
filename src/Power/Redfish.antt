-- ===== src/Power/Redfish.antt =====
-- relay/power/redfish.py: `RedfishBackend`, over `IpmiBackend` of relay/power/ipmi.py.
use openai_ipmi_proxy.Prelude.{
  String, Bool, false, ◌||◌, Option, none, some, if◌then◌else◌, ◌==◌, string_eq, nat_eq,
}
use openai_ipmi_proxy.Prelude.Value.{Value, text, object, get_field}
use openai_ipmi_proxy.Power.Backend.{PowerState, on, off, unknown, PowerBackend}
use openai_ipmi_proxy.Power.Bmc.{get, post, Response, BmcClient, request}

pub record RedfishBackend : Type 0 where
  pub bmc : BmcClient
  pub system_path : String
  pub reset_path : String

-- `state == "On"`, `state == "Off"`, on what `data.get("PowerState")` gives
unfoldable pub state_of_field : Option Value → PowerState
state_of_field (some (text s)) = if s == "On" then on else if s == "Off" then off else unknown
state_of_field _ = unknown

unfoldable pub state_of_json : Option Value → PowerState
unfolding state_of_field
state_of_json (some (object fields)) = state_of_field (get_field "PowerState" fields)
state_of_json _ = unknown

unfoldable pub state_of_response : Option Response → PowerState
unfolding state_of_json
state_of_response none = unknown
state_of_response (some r) = if r.status_code == 200 then state_of_json r.json else unknown

-- `_read_power_state`
unfoldable pub read_power_state : RedfishBackend → PowerState × RedfishBackend
unfolding state_of_response request
read_power_state b =
    let (response, bmc) =
      request b.bmc (record { method = get; path = b.system_path; reset_type = none }) in
    (state_of_response response, record b { bmc = bmc })

unfoldable pub is_accepted : Option Response → Bool
is_accepted none = false
is_accepted (some r) = r.status_code == 200 || r.status_code == 202 || r.status_code == 204

-- `_send_reset`; `reset_path` is `f"{system_path}/Actions/ComputerSystem.Reset"`.
unfoldable pub send_reset : RedfishBackend → String → Bool × RedfishBackend
unfolding is_accepted request
send_reset b reset_type =
    let (response, bmc) =
      request b.bmc (record { method = post; path = b.reset_path; reset_type = some reset_type }) in
    (is_accepted response, record b { bmc = bmc })

-- `IpmiBackend.power_on`, `power_off` and `power_state`
abbrev pub redfish_backend : PowerBackend RedfishBackend
redfish_backend = record {
  power_on = λ b. send_reset b "On";
  power_off = λ b. send_reset b "GracefulShutdown";
  power_state = read_power_state;
}
