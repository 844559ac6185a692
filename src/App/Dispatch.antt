-- ===== src/App/Dispatch.antt =====
-- relay/main.py: the handlers `proxy` and `ws_proxy`, up to the call of the endpoint.
use openai_ipmi_proxy.Prelude.{
  ℕ, String, Bool, true, false, Option, none, some, if◌then◌else◌, ◌==◌, string_eq,
}
use openai_ipmi_proxy.Prelude.Dict.{lookup}
use openai_ipmi_proxy.Prelude.Text.{concat}
use openai_ipmi_proxy.Routing.{route}
use openai_ipmi_proxy.Server.Runtime.{on_routed_traffic}
use openai_ipmi_proxy.Tracker.{record_request}
use openai_ipmi_proxy.App.Relay.{Published, Relay, modify}

-- What becomes of a request: 403, 404, or the endpoint admits it, `admit_catch_all` if `passthrough`.
pub data Reply : Type 0 where
  blocked no_catch_all : Reply
  admitted : String → Bool → Reply

-- Of a WebSocket: it is accepted and closed with 1008, or the endpoint admits it.
pub data WsReply : Type 0 where
  closed : WsReply
  admitted : String → Bool → WsReply

-- What the handler reads of a request
pub record Request : Type 0 where
  pub path : String
  pub method : String
  pub client_ip : String
  pub user_agent : String

abbrev pub prefix_of : String × Published → String
prefix_of (name, e) = e.path_prefix

-- `"/" + path`
abbrev pub full_path : Request → String
full_path request = concat "/" request.path

-- `relay.catch_all`
abbrev pub catch_all_endpoint : {B : Type 0} → Relay B → Option (String × Published)
catch_all_endpoint relay = elim relay.catch_all [
  | none ↦ none
  | some name ↦ elim (lookup name relay.endpoints) [ none ↦ none | some e ↦ some (name, e) ]
]

module _ {B : Type 0} (now : ℕ) (uuid : String) where
  -- `await endpoint.server.on_routed_traffic()`
  unfoldable pub adopt : Published → Relay B → Relay B
  unfolding modify on_routed_traffic
  adopt e relay = record relay {
    servers = modify e.server (on_routed_traffic now uuid) relay.servers;
  }

  -- `relay.unknown_tracker.record(…)`
  unfoldable pub track : Request → Published → Relay B → Relay B
  unfolding record_request
  track request e relay = record relay {
    unknown_tracker =
        record_request request.client_ip request.user_agent request.method (full_path request)
          (concat e.service_url (full_path request)) now relay.unknown_tracker;
  }

  abbrev pub pass : Request → Relay B → Option (String × Published) → Reply × Relay B
  pass request relay none = (no_catch_all, relay)
  pass request relay (some (name, e)) = (admitted name true, adopt e (track request e relay))

  abbrev pub proxy_to : Request → Relay B → Option (String × Published) → Reply × Relay B
  proxy_to request relay (some (name, e)) = (admitted name false, adopt e relay)
  proxy_to request relay none =
      if relay.unknown_path_policy == "allow"
      then pass request relay (catch_all_endpoint relay)
      else (blocked, relay)

  unfoldable pub proxy : Request → Relay B → Reply × Relay B
  unfolding adopt track route lookup
  proxy request relay = proxy_to request relay (route prefix_of (full_path request) relay.endpoints)

  abbrev pub ws_pass : Relay B → Option (String × Published) → WsReply × Relay B
  ws_pass relay none = (closed, relay)
  ws_pass relay (some (name, e)) = (admitted name true, adopt e relay)

  abbrev pub ws_to : Relay B → Option (String × Published) → WsReply × Relay B
  ws_to relay (some (name, e)) = (admitted name false, adopt e relay)
  ws_to relay none =
      if relay.unknown_path_policy == "allow"
      then ws_pass relay (catch_all_endpoint relay)
      else (closed, relay)

  unfoldable pub ws_proxy : Request → Relay B → WsReply × Relay B
  unfolding adopt route lookup
  ws_proxy request relay = ws_to relay (route prefix_of (full_path request) relay.endpoints)
