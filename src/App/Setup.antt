-- ===== src/App/Setup.antt =====
-- relay/main.py: `RelayApp.__init__` and `setup`, which wire the runtime from the configuration. A
-- reference to a server or an endpoint is its name in the dictionary.
use openai_ipmi_proxy.Prelude.{
  String, List, [], ◌∷◌, ◌++◌, Option, none, some, if◌then◌else◌, ◌==◌, string_eq,
}
use openai_ipmi_proxy.Prelude.Int.{ℤ}
use openai_ipmi_proxy.Prelude.Dict.{lookup, insert}
use openai_ipmi_proxy.Config.Models.{RelayConfig, ServerConfig, EndpointConfig, ClientConfig}

-- A server with the endpoints that were appended to it
pub record WiredServer (F : Type 0) : Type 0 where
  pub config : ServerConfig F
  pub endpoints : List String

-- An endpoint with its server and its read timeout
pub record WiredEndpoint (F : Type 0) : Type 0 where
  pub config : EndpointConfig F
  pub server : String
  pub read_timeout : ℤ

pub record RelayApp (F : Type 0) : Type 0 where
  pub servers : List (String × WiredServer F)
  pub pollers : List (String × ClientConfig F)
  pub endpoints : List (String × WiredEndpoint F)
  pub catch_all : Option String
  pub target_read_timeout : ℤ

module _ {F : Type 0} where
  -- The loop of `__init__` over the servers
  unfoldable pub add_servers :
      List (ServerConfig F) → List (String × WiredServer F) → List (String × WiredServer F)
  add_servers [] servers = servers
  add_servers (config ∷ configs) servers =
      add_servers configs (insert config.name (record { config = config; endpoints = [] }) servers)

  unfoldable pub init : RelayConfig F → RelayApp F
  unfolding add_servers
  init config = record {
    servers = add_servers config.servers [];
    pollers = [];
    endpoints = [];
    catch_all = none;
    target_read_timeout = config.proxy.target_read_timeout;
  }

  -- A poller for each client whose status can be asked
  abbrev pub add_poller : ClientConfig F → RelayApp F → RelayApp F
  add_poller client app =
      if client.status.kind == "opencode"
      then record app { pollers = insert client.name client app.pollers }
      else app

  unfoldable pub add_pollers : List (ClientConfig F) → RelayApp F → RelayApp F
  add_pollers [] app = app
  add_pollers (client ∷ clients) app = add_pollers clients (add_poller client app)

  abbrev pub catch_all_of : EndpointConfig F → Option String → Option String
  catch_all_of config old = if config.catch_all then some config.name else old

  -- `server.endpoints.append(endpoint)`
  abbrev pub attach : String → WiredServer F → WiredServer F
  attach name server = record server { endpoints = server.endpoints ++ name ∷ [] }

  -- `EndpointRuntime(endpoint_config, server, …, read_timeout=self.target_read_timeout)`
  abbrev pub wired : EndpointConfig F → RelayApp F → WiredEndpoint F
  wired config app = record {
    config = config;
    server = config.server;
    read_timeout = app.target_read_timeout;
  }

  abbrev pub add_endpoint : EndpointConfig F → WiredServer F → RelayApp F → RelayApp F
  add_endpoint config server app = record app {
    servers = insert config.server (attach config.name server) app.servers;
    endpoints = insert config.name (wired config app) app.endpoints;
    catch_all = catch_all_of config app.catch_all;
  }

  -- The loop over the endpoints; `none` is the `KeyError` of `self.servers[…]`.
  unfoldable pub add_endpoints : List (EndpointConfig F) → RelayApp F → Option (RelayApp F)
  add_endpoints [] app = some app
  add_endpoints (config ∷ configs) app = elim (lookup config.server app.servers) [
    | none ↦ none
    | some server ↦ add_endpoints configs (add_endpoint config server app)
  ]

  -- `setup`, once the HTTP client exists
  unfoldable pub setup : RelayConfig F → RelayApp F → Option (RelayApp F)
  unfolding add_pollers add_endpoints
  setup config app = add_endpoints config.endpoints (add_pollers config.clients app)
