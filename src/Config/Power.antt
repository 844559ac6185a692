-- ===== src/Config/Power.antt =====
-- relay/config.py: the power block of a server and its schedule.
use openai_ipmi_proxy.Prelude.{
  String, Bool, true, false, not, ◌&&◌, ◌||◌, List, [], ◌∷◌, xor, Option, none, some, if◌then◌else◌,
  ◌==◌, string_eq, nat_eq,
}
use openai_ipmi_proxy.Prelude.Text.{is_nonempty, count_words}
use openai_ipmi_proxy.Config.Result.{
  no_five_fields, invalid_cron, no_host, no_credentials, one_key_only, unsupported_type, Result, ok,
  raised, ◌>>=◌, ◌>>◌, require,
}
use openai_ipmi_proxy.Config.Node.{Node, bool, Fields, get_field}
use openai_ipmi_proxy.Config.Fields.{get_str, get_str_opt, get_bool, as_enum, get_enum}
use openai_ipmi_proxy.Config.Models.{PowerConfig, redfish, noop, aws_ec2}
use openai_ipmi_proxy.Config.Sections.{Outside, or_text}

-- `OFF_ACTIONS` and `NOOP_STATES`
abbrev pub off_actions : List String
off_actions = "stop" ∷ "terminate" ∷ []

abbrev pub noop_states : List String
noop_states = "on" ∷ "off" ∷ []

module _ (outside : Outside) where
  unfoldable pub validate_schedule : Option String → Result (Unit {0})
  unfolding count_words
  validate_schedule none = ok tt
  validate_schedule (some schedule) = do
    require (count_words true schedule == 5) (no_five_fields schedule)
    require (outside.is_cron schedule) (invalid_cron schedule)

-- `bool(value)` of a text that may be missing
abbrev pub is_set : Option String → Bool
is_set none = false
is_set (some s) = is_nonempty s

abbrev pub is_some : Option String → Bool
is_some none = false
is_some (some s) = true

module _ {F : Type 0} where
  unfoldable pub build_redfish : Fields F → String → Result PowerConfig
  build_redfish raw place = do
    host ← get_str_opt raw "host" place
    base_url ← get_str_opt raw "base_url" place
    require (is_some host || is_some base_url) (no_host place)
    user ← get_str raw "user" place none
    password ← get_str raw "password" place none
    system_path ← get_str_opt raw "system_path" place
    verify_ssl ← get_bool raw "verify_ssl" place (some false)
    ok (
        redfish (record {
          host = or_text host "";
          user = user;
          password = password;
          base_url = base_url;
          system_path = or_text system_path "/redfish/v1/Systems/Self";
          verify_ssl = verify_ssl;
        }))

  -- `raw.get("initial_state", "on")`, where `on` and `off` may be Booleans of YAML; a null is refused.
  unfoldable pub build_noop : Option (Node F) → String → Result PowerConfig
  build_noop none place = ok (noop (record { initial_state = "on" }))
  build_noop (some (bool true)) place = ok (noop (record { initial_state = "on" }))
  build_noop (some (bool false)) place = ok (noop (record { initial_state = "off" }))
  build_noop (some v) place = do
    initial ← as_enum "initial_state" place noop_states v
    ok (noop (record { initial_state = initial }))

  unfoldable pub build_aws_ec2 : Fields F → String → Result PowerConfig
  build_aws_ec2 raw place = do
    access_key ← get_str_opt raw "access_key" place
    secret_key ← get_str_opt raw "secret_key" place
    profile ← get_str_opt raw "profile" place
    let has_keys = is_set access_key && is_set secret_key
    require (has_keys || is_set profile) (no_credentials place)
    require (not (has_keys && xor (is_set access_key) (is_set secret_key))) (one_key_only place)
    region ← get_str raw "region" place none
    instance_id ← get_str raw "instance_id" place none
    session_token ← get_str_opt raw "session_token" place
    off_action ← get_enum raw "off_action" place off_actions (some "stop")
    ok (
        aws_ec2 (record {
          region = region;
          instance_id = instance_id;
          access_key = access_key;
          secret_key = secret_key;
          session_token = session_token;
          profile = profile;
          off_action = off_action;
        }))

  unfoldable pub build_power : Fields F → String → String → Result PowerConfig
  unfolding build_redfish build_noop build_aws_ec2 get_field
  build_power raw server_type place =
      if server_type == "redfish"
      then build_redfish raw place
      else if server_type == "noop"
      then build_noop (get_field "initial_state" raw) place
      else if server_type == "aws-ec2"
      then build_aws_ec2 raw place
      else raised (unsupported_type place)
