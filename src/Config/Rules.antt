-- ===== src/Config/Rules.antt =====
-- What makes a configuration valid, part by part. The literals of the floats are in thousandths.
use openai_ipmi_proxy.Prelude.{
  ℕ, ◌≤◌, ◌≡◌, String, Bool, true, false, not, ◌&&◌, ◌||◌, List, map, Option, none, some, string_eq,
  nat_eq,
}
use openai_ipmi_proxy.Prelude.Int.{pos, ◌≤ℤ◌}
use openai_ipmi_proxy.Prelude.Lists.{All, contains, distinct, count}
use openai_ipmi_proxy.Prelude.Text.{starts_with, count_words}
use openai_ipmi_proxy.Config.Node.{Floats}
use openai_ipmi_proxy.Config.Fields.{is_blank}
use openai_ipmi_proxy.Config.Models.{
  ProxyConfig, ReadinessConfig, SessionConfig, EndpointConfig, PowerConfig, redfish, noop, aws_ec2,
  ServerConfig, StatusConfig, ChildrenConfig, ClientConfig, RelayConfig,
}
use openai_ipmi_proxy.Config.Sections.{
  unknown_path_policies, request_modes, status_kinds, children_kinds, readiness_methods, nearest,
  Outside,
}
use openai_ipmi_proxy.Config.Power.{off_actions, noop_states, is_set}
use openai_ipmi_proxy.Config.Build.{routings, wait_policies, name_of}

-- One of the words
abbrev pub OneOf : List String → String → Type 0
OneOf words s = contains words s ≡ true

abbrev pub IsFilled : String → Type 0
IsFilled s = is_blank s ≡ false

-- The literals are ordered as the numbers they stand for.
abbrev pub OrderedLiterals : {F : Type 0} → Floats F → Type 0
OrderedLiterals floats =
    (a b : ℕ) → b ≤ a → floats.less (floats.literal a) (floats.literal b) ≡ false

-- `x` is not below that many thousandths.
abbrev pub NotBelow : {F : Type 0} → Floats F → ℕ → F → Type 0
NotBelow floats least x = floats.less x (floats.literal least) ≡ false

-- The nearest directory above the path that exists, if any, is a directory.
abbrev pub Creatable : Outside → String → Type 0
Creatable outside path =
    let current = nearest outside.exists (outside.parent path) in
    (outside.exists current && not (outside.is_dir current)) ≡ false

pub record IsProxy {F : Type 0} (floats : Floats F) (outside : Outside) (proxy : ProxyConfig F)
    : Type 0 where
  pub port_positive : pos 1 ≤ℤ proxy.port
  pub policy_known : OneOf unknown_path_policies proxy.unknown_path_policy
  pub timeout_natural : pos 0 ≤ℤ proxy.target_read_timeout
  pub tick_positive : NotBelow floats 100 proxy.shutdown_tick
  pub retention_natural : pos 0 ≤ℤ proxy.store.retention_days
  pub creatable : Creatable outside proxy.store.path

pub record IsReadiness {F : Type 0} (floats : Floats F) (readiness : ReadinessConfig F)
    : Type 0 where
  pub path_rooted : starts_with readiness.path "/" ≡ true
  pub method_known : OneOf readiness_methods readiness.method
  pub interval_positive : NotBelow floats 100 readiness.interval
  pub timeout_positive : NotBelow floats 100 readiness.timeout

pub record IsSession {F : Type 0} (floats : Floats F) (session : SessionConfig F) : Type 0 where
  pub mode_known : OneOf request_modes session.request_mode
  pub window_natural : NotBelow floats 0 session.busy_window
  pub expiry_positive : NotBelow floats 1_000 session.expiry

pub record IsStatus {F : Type 0} (floats : Floats F) (status : StatusConfig F) : Type 0 where
  pub kind_known : OneOf status_kinds status.kind
  pub port_positive : pos 1 ≤ℤ status.port
  pub interval_positive : NotBelow floats 100 status.poll_interval

pub record IsChildren (children : ChildrenConfig) : Type 0 where
  pub kind_known : OneOf children_kinds children.kind
  pub depth_positive : pos 1 ≤ℤ children.depth

-- The power block is the one of the server's type, with what that needs.
abbrev pub IsPower : String → PowerConfig → Type 0
IsPower kind (redfish c) = (kind ≡ "redfish") × IsFilled c.user × IsFilled c.password
IsPower kind (noop c) = (kind ≡ "noop") × OneOf noop_states c.initial_state
IsPower kind (aws_ec2 c) =
    (kind ≡ "aws-ec2")
    × IsFilled c.region
    × IsFilled c.instance_id
    × OneOf off_actions c.off_action
    × (((is_set c.access_key && is_set c.secret_key) || is_set c.profile) ≡ true)

abbrev pub IsSchedule : Outside → Option String → Type 0
IsSchedule outside none = Unit
IsSchedule outside (some cron) = (count_words true cron ≡ 5) × (outside.is_cron cron ≡ true)

pub record IsServer {F : Type 0} (floats : Floats F) (outside : Outside) (server : ServerConfig F)
    : Type 0 where
  pub name_filled : IsFilled server.name
  pub power_matches : IsPower server.kind server.power
  pub schedule_valid : IsSchedule outside server.schedule
  pub timeout_positive : NotBelow floats 1 server.idle_timeout

pub record IsEndpoint {F : Type 0} (floats : Floats F) (servers : List String)
    (endpoint : EndpointConfig F) : Type 0 where
  pub name_filled : IsFilled endpoint.name
  pub server_known : OneOf servers endpoint.server
  pub prefix_rooted : starts_with endpoint.path_prefix "/" ≡ true
  pub routing_known : OneOf routings endpoint.routing
  pub policy_known : OneOf wait_policies endpoint.wait_policy
  pub slots : endpoint.routing ≡ "queued" → pos 1 ≤ℤ endpoint.concurrency
  pub readiness_valid : IsReadiness floats endpoint.readiness
  pub session_valid : IsSession floats endpoint.session

pub record IsClient {F : Type 0} (floats : Floats F) (client : ClientConfig F) : Type 0 where
  pub name_filled : IsFilled client.name
  pub status_valid : IsStatus floats client.status
  pub children_valid : IsChildren client.children

module _ {F : Type 0} where
  abbrev pub client_name : ClientConfig F → String
  client_name client = client.name

  abbrev pub endpoint_name : EndpointConfig F → String
  endpoint_name endpoint = endpoint.name

  abbrev pub prefix_of : EndpointConfig F → String
  prefix_of endpoint = endpoint.path_prefix

  abbrev pub is_catch_all : EndpointConfig F → Bool
  is_catch_all endpoint = endpoint.catch_all

pub record IsConfig {F : Type 0} (floats : Floats F) (outside : Outside) (config : RelayConfig F)
    : Type 0 where
  pub proxy_valid : IsProxy floats outside config.proxy
  pub servers_valid : All (IsServer floats outside) config.servers
  pub servers_distinct : distinct (map name_of config.servers) ≡ true
  pub endpoints_valid : All (IsEndpoint floats (map name_of config.servers)) config.endpoints
  pub endpoints_distinct : distinct (map endpoint_name config.endpoints) ≡ true
  pub prefixes_distinct : distinct (map prefix_of config.endpoints) ≡ true
  pub one_catch_all : count is_catch_all config.endpoints ≤ 1
  pub clients_valid : All (IsClient floats) config.clients
  pub clients_distinct : distinct (map client_name config.clients) ≡ true
