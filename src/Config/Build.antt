-- ===== src/Config/Build.antt =====
-- relay/config.py: the builders of the servers, the endpoints and the clients, and `_build`.
use openai_ipmi_proxy.Prelude.{
  ℕ, suc, String, Bool, true, false, not, ◌&&◌, ◌||◌, List, [], ◌∷◌, map, Option, none, some, ◌==◌,
  string_eq, nat_beq, leb,
}
use openai_ipmi_proxy.Prelude.Int.{pos, ltb_ℤ}
use openai_ipmi_proxy.Prelude.Lists.{contains}
use openai_ipmi_proxy.Prelude.Dict.{lookup, insert}
use openai_ipmi_proxy.Prelude.Digits.{str}
use openai_ipmi_proxy.Prelude.Text.{starts_with, concat, strip_right}
use openai_ipmi_proxy.Config.Result.{
  duplicate_name, unknown_server, relative_prefix, identical_prefix, second_catch_all, no_slots,
  Result, ok, raised, ◌>>=◌, ◌>>◌, require,
}
use openai_ipmi_proxy.Config.Node.{Node, Fields, get_field, Floats, truth}
use openai_ipmi_proxy.Config.Fields.{
  section, list_section, get_str, get_str_opt, get_int, get_bool, get_enum, get_str_list, get_float,
}
use openai_ipmi_proxy.Config.Models.{EndpointConfig, ServerConfig, ClientConfig, RelayConfig}
use openai_ipmi_proxy.Config.Sections.{
  Outside, millis, build_proxy, build_readiness, build_session, build_status, build_match,
  build_children,
}
use openai_ipmi_proxy.Config.Power.{validate_schedule, build_power}

-- `ROUTINGS`, `WAIT_POLICIES` and `SERVER_TYPES`
abbrev pub routings : List String
routings = "queued" ∷ "concurrent" ∷ "passthrough" ∷ []

abbrev pub wait_policies : List String
wait_policies = "wait" ∷ "error" ∷ []

abbrev pub server_types : List String
server_types = "redfish" ∷ "aws-ec2" ∷ "noop" ∷ []

-- `f"{name}[{i}]"` and `f"{place}.{name}"`
abbrev pub at_index : String → ℕ → String
at_index name i = concat name (concat "[" (concat (str (pos i)) "]"))

abbrev pub below : String → String → String
below place name = concat place (concat "." name)

-- `catch_all += 1` for a truthy value
abbrev pub bump : Bool → ℕ → ℕ
bump true n = suc n
bump false n = n

-- `text.rstrip("/")`; the slash has code 47.
abbrev pub is_slash : ℕ → Bool
is_slash c = nat_beq c 47

-- The variables of the loop of `_build_endpoints`: `seen`, `prefixes` and `catch_all`
pub record Seen : Type 0 where
  pub names : List String
  pub prefixes : List (String × String)
  pub catch_all : ℕ

abbrev pub nothing_seen : Seen
nothing_seen = record { names = []; prefixes = []; catch_all = 0 }

-- `if owner is not None: raise …`
abbrev pub free_prefix : String → String → Option String → Result (Unit {0})
free_prefix prefix name none = ok tt
free_prefix prefix name (some owner) = raised (identical_prefix prefix owner name)

-- `bool(entry.get("catch_all", False))`
abbrev pub is_truthy : {F : Type 0} → Floats F → Option (Node F) → Bool
is_truthy floats none = false
is_truthy floats (some v) = truth floats v

abbrev pub name_of : {F : Type 0} → ServerConfig F → String
name_of server = server.name

module _ {F : Type 0} (floats : Floats F) (outside : Outside) where
  -- One round of the loop of `_build_servers`
  unfoldable pub build_server : ℕ → List String → Node F → Result (ServerConfig F)
  build_server i seen node = do
    entry ← section (some node) (at_index "servers" i)
    name ← get_str entry "name" (at_index "servers" i) none
    require (not (contains seen name)) (duplicate_name name (at_index "servers" i))
    server_type ← get_enum entry "type" (at_index "servers" i) server_types none
    power_raw ← section (get_field "power" entry) (below (at_index "servers" i) "power")
    schedule ← get_str_opt entry "schedule" (at_index "servers" i)
    validate_schedule outside schedule
    url ← get_str entry "service_url" (at_index "servers" i) none
    power ← build_power power_raw server_type (below (at_index "servers" i) "power")
    idle ←
        get_float floats entry "idle_timeout" (at_index "servers" i) (millis floats 3_600_000)
          (millis floats 1)
    enabled ← get_bool entry "shutdown_enabled" (at_index "servers" i) (some true)
    adopt ← get_bool entry "adopt_on_traffic" (at_index "servers" i) (some true)
    ok (record {
      name = name;
      kind = server_type;
      power = power;
      service_url = strip_right is_slash url;
      idle_timeout = idle;
      shutdown_enabled = enabled;
      adopt_on_traffic = adopt;
      schedule = schedule;
    })

  unfoldable pub build_servers : ℕ → List String → List (Node F) → Result (List (ServerConfig F))
  build_servers i seen [] = ok []
  build_servers i seen (node ∷ raw) = do
    server ← build_server i seen node
    servers ← build_servers (suc i) (server.name ∷ seen) raw
    ok (server ∷ servers)

  -- One round of the loop of `_build_endpoints`
  unfoldable pub build_endpoint : List String → ℕ → Seen → Node F → Result (EndpointConfig F)
  build_endpoint server_names i seen node = do
    entry ← section (some node) (at_index "endpoints" i)
    name ← get_str entry "name" (at_index "endpoints" i) none
    require (not (contains seen.names name)) (duplicate_name name (at_index "endpoints" i))
    server ← get_str entry "server" (at_index "endpoints" i) none
    require (contains server_names server) (unknown_server name server)
    prefix ← get_str entry "path_prefix" (at_index "endpoints" i) none
    require (starts_with prefix "/") (relative_prefix prefix (at_index "endpoints" i))
    free_prefix prefix name (lookup prefix seen.prefixes)
    let catch_all = is_truthy floats (get_field "catch_all" entry)
    require (leb (bump catch_all seen.catch_all) 1 || not catch_all) (second_catch_all name)
    routing ← get_enum entry "routing" (at_index "endpoints" i) routings (some "queued")
    concurrency ← get_int entry "concurrency" (at_index "endpoints" i) (some (pos 1)) none
    require (not (routing == "queued" && ltb_ℤ concurrency (pos 1))) (no_slots name)
    readiness_raw ←
        section (get_field "readiness" entry) (below (at_index "endpoints" i) "readiness")
    session_raw ← section (get_field "session" entry) (below (at_index "endpoints" i) "session")
    readiness ← build_readiness floats readiness_raw (below (at_index "endpoints" i) "readiness")
    wait_policy ← get_enum entry "wait_policy" (at_index "endpoints" i) wait_policies (some "wait")
    queue_timeout ←
        get_float floats entry "queue_timeout" (at_index "endpoints" i) (millis floats 0) none
    session ← build_session floats session_raw (below (at_index "endpoints" i) "session")
    body_fields ← get_str_list entry "session_id_body_fields" (at_index "endpoints" i) []
    ok (record {
      name = name;
      server = server;
      path_prefix = prefix;
      catch_all = catch_all;
      readiness = readiness;
      wait_policy = wait_policy;
      routing = routing;
      concurrency = concurrency;
      queue_timeout = queue_timeout;
      session = session;
      session_id_body_fields = body_fields;
    })

  -- What the loop has seen after a round
  abbrev pub see : EndpointConfig F → Seen → Seen
  see endpoint seen = record {
    names = endpoint.name ∷ seen.names;
    prefixes = insert endpoint.path_prefix endpoint.name seen.prefixes;
    catch_all = bump endpoint.catch_all seen.catch_all;
  }

  unfoldable pub build_endpoints :
      List String → ℕ → Seen → List (Node F) → Result (List (EndpointConfig F))
  build_endpoints server_names i seen [] = ok []
  build_endpoints server_names i seen (node ∷ raw) = do
    endpoint ← build_endpoint server_names i seen node
    endpoints ← build_endpoints server_names (suc i) (see endpoint seen) raw
    ok (endpoint ∷ endpoints)

  -- One round of the loop of `_build_clients`
  unfoldable pub build_client : ℕ → List String → Node F → Result (ClientConfig F)
  build_client i seen node = do
    entry ← section (some node) (at_index "clients" i)
    name ← get_str entry "name" (at_index "clients" i) none
    require (not (contains seen name)) (duplicate_name name (at_index "clients" i))
    match_raw ← section (get_field "match" entry) (below (at_index "clients" i) "match")
    status_raw ← section (get_field "status" entry) (below (at_index "clients" i) "status")
    children_raw ← section (get_field "children" entry) (below (at_index "clients" i) "children")
    matching ← build_match match_raw (below (at_index "clients" i) "match")
    status ← build_status floats status_raw (below (at_index "clients" i) "status")
    children ← build_children children_raw (below (at_index "clients" i) "children")
    ok (record { name = name; matching = matching; status = status; children = children })

  unfoldable pub build_clients : ℕ → List String → List (Node F) → Result (List (ClientConfig F))
  build_clients i seen [] = ok []
  build_clients i seen (node ∷ raw) = do
    client ← build_client i seen node
    clients ← build_clients (suc i) (client.name ∷ seen) raw
    ok (client ∷ clients)

  unfoldable pub build : Fields F → Result (RelayConfig F)
  build document = do
    proxy_raw ← section (get_field "proxy" document) "proxy"
    proxy ← build_proxy floats outside proxy_raw
    servers_raw ← list_section (get_field "servers" document) "servers"
    servers ← build_servers 0 [] servers_raw
    endpoints_raw ← list_section (get_field "endpoints" document) "endpoints"
    endpoints ← build_endpoints (map name_of servers) 0 nothing_seen endpoints_raw
    clients_raw ← list_section (get_field "clients" document) "clients"
    clients ← build_clients 0 [] clients_raw
    ok (record { proxy = proxy; servers = servers; endpoints = endpoints; clients = clients })
