-- ===== src/Config/Models.antt =====
-- relay/models.py: the configuration. `F` is the type of the floats; a field that the loader has
-- checked against a list of words keeps its text.
use openai_ipmi_proxy.Prelude.{String, Bool, List, Option}
use openai_ipmi_proxy.Prelude.Int.{ℤ}

pub record StoreConfig : Type 0 where
  pub path : String
  pub retention_days : ℤ

pub record ProxyConfig (F : Type 0) : Type 0 where
  pub host : String
  pub port : ℤ
  pub unknown_path_policy : String
  pub target_read_timeout : ℤ
  pub session_id_headers : List String
  pub shutdown_tick : F
  pub store : StoreConfig

pub record ReadinessConfig (F : Type 0) : Type 0 where
  pub path : String
  pub method : String
  pub interval : F
  pub timeout : F
  pub healthy_statuses : List ℤ

pub record SessionConfig (F : Type 0) : Type 0 where
  pub per_session_requests : ℤ
  pub request_mode : String
  pub busy_window : F
  pub expiry : F
  pub immediate_idle_release : Bool

pub record EndpointConfig (F : Type 0) : Type 0 where
  pub name : String
  pub server : String
  pub path_prefix : String
  pub catch_all : Bool
  pub readiness : ReadinessConfig F
  pub wait_policy : String
  pub routing : String
  pub concurrency : ℤ
  pub queue_timeout : F
  pub session : SessionConfig F
  pub session_id_body_fields : List String

pub record RedfishPowerConfig : Type 0 where
  pub host : String
  pub user : String
  pub password : String
  pub base_url : Option String
  pub system_path : String
  pub verify_ssl : Bool

pub record NoopPowerConfig : Type 0 where
  pub initial_state : String

pub record AwsEc2PowerConfig : Type 0 where
  pub region : String
  pub instance_id : String
  pub access_key : Option String
  pub secret_key : Option String
  pub session_token : Option String
  pub profile : Option String
  pub off_action : String

-- `PowerConfig`, a union of the three
pub data PowerConfig : Type 0 where
  redfish : RedfishPowerConfig → PowerConfig
  noop : NoopPowerConfig → PowerConfig
  aws_ec2 : AwsEc2PowerConfig → PowerConfig

-- `kind` is the field `type`.
pub record ServerConfig (F : Type 0) : Type 0 where
  pub name : String
  pub kind : String
  pub power : PowerConfig
  pub service_url : String
  pub idle_timeout : F
  pub shutdown_enabled : Bool
  pub adopt_on_traffic : Bool
  pub schedule : Option String

pub record MatchConfig : Type 0 where
  pub ua_prefix : String
  pub session_headers : List String
  pub gated_session_headers : List String

pub record StatusConfig (F : Type 0) : Type 0 where
  pub kind : String
  pub port : ℤ
  pub password : String
  pub poll_interval : F
  pub status_path : String
  pub session_path : String
  pub pending_paths : List String

pub record ChildrenConfig : Type 0 where
  pub kind : String
  pub depth : ℤ

-- `matching` is the field `match`.
pub record ClientConfig (F : Type 0) : Type 0 where
  pub name : String
  pub matching : MatchConfig
  pub status : StatusConfig F
  pub children : ChildrenConfig

pub record RelayConfig (F : Type 0) : Type 0 where
  pub proxy : ProxyConfig F
  pub servers : List (ServerConfig F)
  pub endpoints : List (EndpointConfig F)
  pub clients : List (ClientConfig F)
