-- ===== src/Tests/Configs.antt =====
-- relay/config.py: a small configuration, through the whole loader.
use openai_ipmi_proxy.Prelude.{
  nat_beq, ◌+◌, ◌*◌, ◌≡◌, refl, arith, String, Bool, true, false, List, [], ◌∷◌, none, some,
  string_eq, if◌then◌else◌,
}
use openai_ipmi_proxy.Prelude.Int.{ℤ, pos, negsuc, ltb_ℤ}
use openai_ipmi_proxy.Prelude.Dict.{lookup, insert, has}
use openai_ipmi_proxy.Config.Result.{ok, raised, ◌>>=◌, require}
use openai_ipmi_proxy.Config.Node.{
  Node, bool, int, text, list, mapping, nil, cons, Fields, end, field, Floats, get_field,
}
use openai_ipmi_proxy.Config.Models.{RelayConfig, EndpointConfig, noop}
use openai_ipmi_proxy.Config.Sections.{Outside}
use openai_ipmi_proxy.Prelude.Lists.{contains}
use openai_ipmi_proxy.Prelude.Text.{concat, strip, strip_left, strip_right, count_words}
use openai_ipmi_proxy.Prelude.Digits.{str, digits}
use openai_ipmi_proxy.Config.Environ.{merge, merged_files, set_defaults, load_env_files}
use openai_ipmi_proxy.Config.Fields.{
  section, list_section, get_str, get_str_opt, get_int, get_enum, get_str_list, get_float, get_bool,
  get_int_list, all_ints, all_texts, as_bool, as_enum, as_float, as_int, as_int_list, as_str,
  as_str_list, as_str_opt, bounded_float, is_blank,
}
use openai_ipmi_proxy.Config.Build.{
  build, build_servers, build_server, build_client, build_clients, build_endpoint, build_endpoints,
}
use openai_ipmi_proxy.Config.Interpolate.{
  interpolate, interpolate_text, begins, has_marker, match_at, match_end, resolve, span, sub,
}
use openai_ipmi_proxy.Config.Valid.Power.{HostRequired}
use openai_ipmi_proxy.Config.Load.{read_config}
use openai_ipmi_proxy.Config.Power.{build_noop, build_power, validate_schedule}
use openai_ipmi_proxy.Config.Sections.{
  build_proxy, build_children, build_match, build_readiness, build_session, build_status, nearest,
  pending_paths_of, validate_store_path,
}
use openai_ipmi_proxy.Config.Rules.{OrderedLiterals, IsConfig}
use openai_ipmi_proxy.Config.Build.{nothing_seen}
use openai_ipmi_proxy.Config.Result.{unsupported_reference}
use openai_ipmi_proxy.Config.Environ.{Environ, or_else, value_of, load_env_files-precedence}
use openai_ipmi_proxy.Config.Pieces.{Piece, plain, reference, print}
use openai_ipmi_proxy.Config.References.{marked, expand, interpolate_text-print}
use openai_ipmi_proxy.Config.Mistakes.{text_catches_all}
use openai_ipmi_proxy.Config.Load.{Disk, load_config, load_config-IsConfig}

-- Thousandths stand for the floats.
abbrev thousandths : ℤ → ℤ
thousandths (pos n) = pos (n * 1_000)
thousandths (negsuc n) = negsuc (n * 1_000 + 999)

abbrev is_zero : ℤ → Bool
is_zero (pos n) = nat_beq n 0
is_zero (negsuc n) = false

abbrev pub exact : Floats ℤ
exact = record {
  of_int = λ n. some (thousandths n);
  literal = pos;
  less = ltb_ℤ;
  is_zero = is_zero;
}

pub exact-OrderedLiterals : OrderedLiterals exact
exact-OrderedLiterals a b h = ground (arith, h)

-- Every schedule is accepted, and the directory of the database is there.
abbrev pub outside : Outside
outside = record {
  lower = λ s. s;
  is_cron = λ s. true;
  parent = λ s. "data" ∷ [];
  exists = λ parts. true;
  is_dir = λ parts. true;
}

abbrev server_node : Node ℤ
server_node = mapping (
    field "name" (text "box") (
      field "type" (text "noop") (
        field "service_url" (text "http://${BOX:-gpu}:8000/")
          (field "schedule" (text "0 22 * * *") end))))

abbrev endpoint_node : String → String → Bool → Node ℤ
endpoint_node name prefix catch_all = mapping (
    field "name" (text name) (
      field "server" (text "box") (
        field "path_prefix" (text prefix)
          (field "catch_all" (bool catch_all) (field "concurrency" (int (pos 2)) end)))))

abbrev document : Node ℤ
document = mapping (
    field "servers" (list (cons server_node nil)) (
      field "endpoints"
        (list
          (cons (endpoint_node "chat" "/v1" true) (cons (endpoint_node "code" "/code" false) nil)))
        end))

abbrev pub disk : Disk ℤ
disk = record {
  is_file = true;
  document = some document;
  env_files = record {
    cwd_env = some (("BOX", some "old") ∷ ("PORT", none) ∷ []);
    config_env = none;
    cwd_secrets = some (("BOX", some "10.0.0.7") ∷ []);
    config_secrets = none;
  };
}

abbrev pub endpoint : String → String → Bool → EndpointConfig ℤ
endpoint name prefix catch_all = record {
  name = name;
  server = "box";
  path_prefix = prefix;
  catch_all = catch_all;
  readiness = record {
    path = "/health";
    method = "GET";
    interval = pos 5_000;
    timeout = pos 2_000;
    healthy_statuses = pos 200 ∷ [];
  };
  wait_policy = "wait";
  routing = "queued";
  concurrency = pos 2;
  queue_timeout = pos 0;
  session = record {
    per_session_requests = negsuc 0;
    request_mode = "parallel";
    busy_window = pos 120_000;
    expiry = pos 300_000;
    immediate_idle_release = true;
  };
  session_id_body_fields = [];
}

abbrev pub config : RelayConfig ℤ
config = record {
  proxy = record {
    host = "0.0.0.0";
    port = pos 8_000;
    unknown_path_policy = "allow";
    target_read_timeout = pos 0;
    session_id_headers = "x-session-id" ∷ [];
    shutdown_tick = pos 60_000;
    store = record { path = "./relay.db"; retention_days = pos 90 };
  };
  servers =
      record {
        name = "box";
        kind = "noop";
        power = noop (record { initial_state = "on" });
        service_url = "http://10.0.0.7:8000";
        idle_timeout = pos 3_600_000;
        shutdown_enabled = true;
        adopt_on_traffic = true;
        schedule = some "0 22 * * *";
      }
      ∷ [];
  endpoints = endpoint "chat" "/v1" true ∷ endpoint "code" "/code" false ∷ [];
  clients = [];
}

pub loaded : (load_config exact outside disk []).1 ≡ ok config
unfolding load_config ◌>>=◌ require get_field lookup insert has contains concat strip strip_left
    strip_right count_words str digits merge merged_files set_defaults load_env_files section
    list_section get_str get_str_opt get_int get_enum get_str_list get_float get_bool get_int_list
    all_ints all_texts as_bool as_enum as_float as_int as_int_list as_str as_str_list as_str_opt
    bounded_float is_blank build build_servers build_server build_client build_clients
    build_endpoint build_endpoints interpolate interpolate_text begins has_marker match_at match_end
    resolve span sub read_config build_noop build_power validate_schedule build_proxy build_children
    build_match build_readiness build_session build_status nearest pending_paths_of
    validate_store_path
loaded = refl

load_config-IsConfig_example : IsConfig exact outside config × HostRequired ℤ
load_config-IsConfig_example =
    load_config-IsConfig exact outside exact-OrderedLiterals disk [] config loaded

abbrev home : Environ
home = ("HOME", "/root") ∷ []

load_env_files-precedence_example :
    lookup "BOX" (load_env_files disk.env_files home)
    ≡ or_else (lookup "BOX" home) (
        or_else (value_of "BOX" disk.env_files.config_secrets) (
          or_else (value_of "BOX" disk.env_files.cwd_secrets) (
            or_else
              (value_of "BOX" disk.env_files.config_env)
              (value_of "BOX" disk.env_files.cwd_env))))
load_env_files-precedence_example = load_env_files-precedence "BOX" disk.env_files home

-- `http://${BOX:-gpu}/${PATH}`
abbrev pieces : List Piece
pieces = plain "http://" ∷ reference "BOX" (some "gpu") ∷ plain "/" ∷ reference "PATH" none ∷ []

abbrev variables : Environ
variables = ("PATH", "v1") ∷ []

interpolate_text-print_example : interpolate_text variables "$" (print pieces) ≡ (
    expand variables "$" pieces >>= λ result.
    if marked result then raised (unsupported_reference "$") else ok result)
interpolate_text-print_example =
    interpolate_text-print variables "$" pieces
      (refl, ((refl, refl, refl), (refl, ((refl, refl, tt), tt))))

abbrev result_node : Node ℤ
result_node = mapping (field "url" (list (cons (text "http://gpu/v1") nil)) end)

abbrev given_node : Node ℤ
given_node = mapping (field "url" (list (cons (text "http://${BOX:-gpu}/${PATH}") nil)) end)

is_interpolated : interpolate variables "$" given_node ≡ ok result_node
unfolding load_config ◌>>=◌ require get_field lookup insert has contains concat strip strip_left
    strip_right count_words str digits merge merged_files set_defaults load_env_files section
    list_section get_str get_str_opt get_int get_enum get_str_list get_float get_bool get_int_list
    all_ints all_texts as_bool as_enum as_float as_int as_int_list as_str as_str_list as_str_opt
    bounded_float is_blank build build_servers build_server build_client build_clients
    build_endpoint build_endpoints interpolate interpolate_text begins has_marker match_at match_end
    resolve span sub read_config build_noop build_power validate_schedule build_proxy build_children
    build_match build_readiness build_session build_status nearest pending_paths_of
    validate_store_path
is_interpolated = refl

-- `catch_all: "false"`
abbrev quoted : Fields ℤ
quoted = field "name" (text "chat") (
    field "server" (text "box") (
      field "path_prefix" (text "/v1")
        (field "catch_all" (text "false") (field "concurrency" (int (pos 2)) end))))

is_quoted :
    build_endpoint exact outside ("box" ∷ []) 0 nothing_seen (mapping quoted)
    ≡ ok (endpoint "chat" "/v1" true)
unfolding load_config ◌>>=◌ require get_field lookup insert has contains concat strip strip_left
    strip_right count_words str digits merge merged_files set_defaults load_env_files section
    list_section get_str get_str_opt get_int get_enum get_str_list get_float get_bool get_int_list
    all_ints all_texts as_bool as_enum as_float as_int as_int_list as_str as_str_list as_str_opt
    bounded_float is_blank build build_servers build_server build_client build_clients
    build_endpoint build_endpoints interpolate interpolate_text begins has_marker match_at match_end
    resolve span sub read_config build_noop build_power validate_schedule build_proxy build_children
    build_match build_readiness build_session build_status nearest pending_paths_of
    validate_store_path
is_quoted = refl

text_catches_all_example : (endpoint "chat" "/v1" true).catch_all ≡ true
unfolding get_field
text_catches_all_example =
    text_catches_all exact outside ("box" ∷ []) 0 nothing_seen quoted "false"
      (endpoint "chat" "/v1" true) refl refl is_quoted
