-- ===== src/Config/Sections.antt =====
-- relay/config.py: the builders of the sections `proxy`, `readiness`, `session`, `match`, `status` and
-- `children`, and the path of the database.
use openai_ipmi_proxy.Prelude.{
  ℕ, String, Bool, true, not, ◌&&◌, List, [], ◌∷◌, map, Option, none, some, if◌then◌else◌, ◌==◌,
  string_eq,
}
use openai_ipmi_proxy.Prelude.Int.{pos, negsuc}
use openai_ipmi_proxy.Prelude.Text.{starts_with, is_nonempty, concat}
use openai_ipmi_proxy.Config.Result.{path_not_creatable, Result, ok, raised, ◌>>=◌, ◌>>◌}
use openai_ipmi_proxy.Config.Node.{Fields, get_field, given, Floats}
use openai_ipmi_proxy.Config.Fields.{
  read, section, get_str_opt, get_int, get_bool, get_enum, get_str_list, get_int_list, get_float,
}
use openai_ipmi_proxy.Config.Models.{
  ProxyConfig, ReadinessConfig, SessionConfig, MatchConfig, StatusConfig, ChildrenConfig,
}

-- `UNKNOWN_PATH_POLICIES`, `REQUEST_MODES`, `STATUS_KINDS`, `CHILDREN_KINDS`, `READINESS_METHODS`
abbrev pub unknown_path_policies : List String
unknown_path_policies = "allow" ∷ "block" ∷ []

abbrev pub request_modes : List String
request_modes = "parallel" ∷ "atomic" ∷ []

abbrev pub status_kinds : List String
status_kinds = "opencode" ∷ "none" ∷ []

abbrev pub children_kinds : List String
children_kinds = "none" ∷ "parent-chain" ∷ []

abbrev pub readiness_methods : List String
readiness_methods = "GET" ∷ "POST" ∷ "PUT" ∷ "DELETE" ∷ "PATCH" ∷ "HEAD" ∷ []

-- `value or default`, for a text that may be missing
abbrev pub or_text : Option String → String → String
or_text none default = default
or_text (some s) default = if is_nonempty s then s else default

-- `if not path.startswith("/"): path = "/" + path`
abbrev pub rooted : String → String
rooted path = if starts_with path "/" then path else concat "/" path

-- A path of the file system, as its parts from the last to the first: the parent drops the first of
-- the list, and the root is its own parent.
abbrev pub Parts : Type 0
Parts = List String

-- The loop of `_validate_store_path`
unfoldable pub nearest : (Parts → Bool) → Parts → Parts
nearest exists [] = []
nearest exists (part ∷ parents) =
    if exists (part ∷ parents) then part ∷ parents else nearest exists parents

-- What the loader takes from outside: `str.lower`; whether `croniter` accepts a schedule
-- `Path(path).expanduser().parent`; and the file system.
pub record Outside : Type 0 where
  pub lower : String → String
  pub is_cron : String → Bool
  pub parent : String → Parts
  pub exists : Parts → Bool
  pub is_dir : Parts → Bool

module _ (outside : Outside) where
  unfoldable pub validate_store_path : String → Result (Unit {0})
  unfolding nearest
  validate_store_path path =
      let current = nearest outside.exists (outside.parent path) in
      if outside.exists current && not (outside.is_dir current)
      then raised (path_not_creatable path)
      else ok tt

module _ {F : Type 0} (floats : Floats F) where
  abbrev pub millis : ℕ → Option F
  millis n = some (floats.literal n)

  unfoldable pub build_proxy : Outside → Fields F → Result (ProxyConfig F)
  unfolding validate_store_path
  build_proxy outside raw = do
    store_raw ← section (get_field "store" raw) "proxy.store"
    path ← get_str_opt store_raw "path" "proxy.store"
    validate_store_path outside (or_text path "./relay.db")
    host ← get_str_opt raw "host" "proxy"
    port ← get_int raw "port" "proxy" (some (pos 8000)) (some (pos 1))
    policy ← get_enum raw "unknown_path_policy" "proxy" unknown_path_policies (some "allow")
    timeout ← get_int raw "target_read_timeout" "proxy" (some (pos 0)) (some (pos 0))
    headers ← get_str_list raw "session_id_headers" "proxy" ("x-session-id" ∷ [])
    tick ← get_float floats raw "shutdown_tick" "proxy" (millis 60_000) (millis 100)
    days ← get_int store_raw "retention_days" "proxy.store" (some (pos 90)) (some (pos 0))
    ok (record {
      host = or_text host "0.0.0.0";
      port = port;
      unknown_path_policy = policy;
      target_read_timeout = timeout;
      session_id_headers = map outside.lower headers;
      shutdown_tick = tick;
      store = record { path = or_text path "./relay.db"; retention_days = days };
    })

  -- `.upper()` changes none of the allowed methods.
  unfoldable pub build_readiness : Fields F → String → Result (ReadinessConfig F)
  build_readiness raw place = do
    path ← get_str_opt raw "path" place
    method ← get_enum raw "method" place readiness_methods (some "GET")
    interval ← get_float floats raw "interval" place (millis 5_000) (millis 100)
    timeout ← get_float floats raw "timeout" place (millis 2_000) (millis 100)
    statuses ← get_int_list raw "healthy_statuses" place (some (pos 200 ∷ []))
    ok (record {
      path = rooted (or_text path "/health");
      method = method;
      interval = interval;
      timeout = timeout;
      healthy_statuses = statuses;
    })

  unfoldable pub build_session : Fields F → String → Result (SessionConfig F)
  build_session raw place = do
    requests ← get_int raw "per_session_requests" place (some (negsuc 0)) none
    mode ← get_enum raw "request_mode" place request_modes (some "parallel")
    window ← get_float floats raw "busy_window" place (millis 120_000) (millis 0)
    expiry ← get_float floats raw "expiry" place (millis 300_000) (millis 1_000)
    immediate ← get_bool raw "immediate_idle_release" place (some true)
    ok (record {
      per_session_requests = requests;
      request_mode = mode;
      busy_window = window;
      expiry = expiry;
      immediate_idle_release = immediate;
    })

  -- Where the paths are not given, the kind decides.
  unfoldable pub pending_paths_of : Fields F → String → String → Result (List String)
  pending_paths_of raw place kind =
      read (given (get_field "pending_paths" raw))
        (ok (if kind == "opencode" then "/permission" ∷ "/question" ∷ [] else []))
        (λ v. get_str_list raw "pending_paths" place [])

  unfoldable pub build_status : Fields F → String → Result (StatusConfig F)
  unfolding pending_paths_of
  build_status raw place = do
    kind ← get_enum raw "kind" place status_kinds (some "opencode")
    pending_paths ← pending_paths_of raw place kind
    port ← get_int raw "port" place (some (pos 4096)) (some (pos 1))
    password ← get_str_opt raw "password" place
    poll_interval ← get_float floats raw "poll_interval" place (millis 5_000) (millis 100)
    status_path ← get_str_opt raw "status_path" place
    session_path ← get_str_opt raw "session_path" place
    ok (record {
      kind = kind;
      port = port;
      password = or_text password "";
      poll_interval = poll_interval;
      status_path = or_text status_path "/session/status";
      session_path = or_text session_path "/session";
      pending_paths = pending_paths;
    })

module _ {F : Type 0} where
  unfoldable pub build_match : Fields F → String → Result MatchConfig
  build_match raw place = do
    prefix ← get_str_opt raw "ua_prefix" place
    headers ← get_str_list raw "session_headers" place []
    gated ← get_str_list raw "gated_session_headers" place []
    ok (record {
      ua_prefix = or_text prefix "";
      session_headers = headers;
      gated_session_headers = gated;
    })

  unfoldable pub build_children : Fields F → String → Result ChildrenConfig
  build_children raw place = do
    kind ← get_enum raw "kind" place children_kinds (some "none")
    depth ← get_int raw "depth" place (some (pos 10)) (some (pos 1))
    ok (record { kind = kind; depth = depth })
