-- ===== src/Config/Valid/Whole.antt =====
-- What the builders of the lists ensure, and the whole of `_build`.
use openai_ipmi_proxy.Prelude.{
  ℕ, suc, ◌+◌, ◌≤◌, ◌≡◌, refl, String, Bool, true, false, ◌||◌, List, [], ◌∷◌, map, subst, fun_ext,
  ◌==◌, string_eq, nat_eq, arith,
}
use openai_ipmi_proxy.Prelude.Lists.{contains, distinct, All, count}
use openai_ipmi_proxy.Prelude.Dict.{insert, has, has-insert, has-eq-false}
use openai_ipmi_proxy.Config.Result.{ok, Ensures, Ensures-ok, Ensures-bind, Ensures-after}
use openai_ipmi_proxy.Config.Node.{Node, Fields, Floats}
use openai_ipmi_proxy.Config.Models.{EndpointConfig, RelayConfig}
use openai_ipmi_proxy.Config.Sections.{Outside}
use openai_ipmi_proxy.Config.Build.{
  Seen, nothing_seen, name_of, build_servers, see, build_endpoints, build_clients, build,
}
use openai_ipmi_proxy.Config.Rules.{
  OrderedLiterals, IsServer, IsEndpoint, IsClient, client_name, endpoint_name, prefix_of,
  is_catch_all, IsConfig,
}
use openai_ipmi_proxy.Config.Valid.Parts.{build_proxy-IsProxy}
use openai_ipmi_proxy.Config.Valid.Entries.{
  build_server-IsServer, build_endpoint-IsEndpoint, build_client-IsClient,
}

-- Names that stand once, and are not taken yet
abbrev NotTaken : (String → Bool) → List String → Type 0
NotTaken taken names = All (λ n. taken n ≡ false) names × (distinct names ≡ true)

module _ (taken : String → Bool) (name : String) where
  abbrev taken_too : String → Bool
  taken_too n = name == n || taken n

  skip_taken :
      (names : List String)
      → All (λ n. taken_too n ≡ false) names
      → All (λ n. taken n ≡ false) names × (contains names name ≡ false)
  unfolding contains
  skip_taken [] h = (tt, refl)
  skip_taken (n ∷ names) h =
      let (others, absent) = skip_taken names h.1 in
      (
        (ground (arith, h.0), others),
        ground (arith, h.0, absent, string_eq.agree n name, string_eq.agree name n),
      )

  NotTaken-cons :
      (names : List String)
      → taken name ≡ false
      → NotTaken taken_too names
      → NotTaken taken (name ∷ names)
  unfolding distinct
  NotTaken-cons names free h =
      let (others, absent) = skip_taken names h.0 in ((free, others), ground (arith, absent, h.1))

prefix_taken :
    (prefix name : String) (prefixes : List (String × String)) (names : List String)
    → NotTaken (λ n. has n (insert prefix name prefixes)) names
    → NotTaken (taken_too (λ n. has n prefixes) prefix) names
prefix_taken prefix name prefixes names h =
    subst (λ t. NotTaken t names) (fun_ext (λ n. has-insert prefix n name prefixes)) h

module _ {F : Type 0} (floats : Floats F) (outside : Outside)
    (ordered : OrderedLiterals floats) where
  build_servers-AllServers :
      (i : ℕ) (seen : List String) (raw : List (Node F))
      → Ensures
          (λ servers.
            All (IsServer floats outside) servers × NotTaken (contains seen) (map name_of servers))
          (build_servers floats outside i seen raw)
  unfolding build_servers contains distinct
  build_servers-AllServers i seen [] = Ensures-ok [] (tt, (tt, refl))
  build_servers-AllServers i seen (node ∷ raw) =
      Ensures-bind (build_server-IsServer floats outside ordered i seen node) λ server valid.
        Ensures-bind (build_servers-AllServers (suc i) (server.name ∷ seen) raw) λ servers rest.
          Ensures-ok (server ∷ servers) (
            (valid.0, rest.0),
            NotTaken-cons (contains seen) server.name (map name_of servers) valid.1 rest.1,
          )

  build_clients-AllClients :
      (i : ℕ) (seen : List String) (raw : List (Node F))
      → Ensures
          (λ clients.
            All (IsClient floats) clients × NotTaken (contains seen) (map client_name clients))
          (build_clients floats outside i seen raw)
  unfolding build_clients contains distinct
  build_clients-AllClients i seen [] = Ensures-ok [] (tt, (tt, refl))
  build_clients-AllClients i seen (node ∷ raw) =
      Ensures-bind (build_client-IsClient floats outside ordered i seen node) λ client valid.
        Ensures-bind (build_clients-AllClients (suc i) (client.name ∷ seen) raw) λ clients rest.
          Ensures-ok (client ∷ clients) (
            (valid.0, rest.0),
            NotTaken-cons (contains seen) client.name (map client_name clients) valid.1 rest.1,
          )

  -- What the loop over the endpoints ensures, from what it has seen
  record AllEndpoints (servers : List String) (seen : Seen) (endpoints : List (EndpointConfig F))
      : Type 0 where
    pub valid : All (IsEndpoint floats servers) endpoints
    pub names : NotTaken (contains seen.names) (map endpoint_name endpoints)
    pub prefixes : NotTaken (λ n. has n seen.prefixes) (map prefix_of endpoints)
    pub one : seen.catch_all ≤ 1 → count is_catch_all endpoints + seen.catch_all ≤ 1

  build_endpoints-AllEndpoints :
      (servers : List String) (i : ℕ) (seen : Seen) (raw : List (Node F))
      → Ensures (AllEndpoints servers seen) (build_endpoints floats outside servers i seen raw)
  unfolding build_endpoints contains distinct count
  build_endpoints-AllEndpoints servers i seen [] = Ensures-ok [] (record {
    valid = tt;
    names = (tt, refl);
    prefixes = (tt, refl);
    one = λ h. omega (arith, h);
  })
  build_endpoints-AllEndpoints servers i seen (node ∷ raw) =
      Ensures-bind (build_endpoint-IsEndpoint floats outside ordered servers i seen node)
        λ endpoint v.
          Ensures-bind
            (build_endpoints-AllEndpoints servers (suc i) (see floats outside endpoint seen) raw)
            λ endpoints rest. Ensures-ok (endpoint ∷ endpoints) (record {
              valid = (v.0, rest.valid);
              names = NotTaken-cons (contains seen.names) endpoint.name _ v.1 rest.names;
              prefixes =
                  NotTaken-cons (λ n. has n seen.prefixes) endpoint.path_prefix
                    (map prefix_of endpoints) (has-eq-false endpoint.path_prefix seen.prefixes v.2)
                    (prefix_taken endpoint.path_prefix endpoint.name seen.prefixes
                      (map prefix_of endpoints) rest.prefixes);
              one = λ h. ground (arith, h, v.3, rest.one);
            })

  build-Ensures :
      (document : Fields F) → Ensures (IsConfig floats outside) (build floats outside document)
  unfolding build
  build-Ensures document = Ensures-after λ proxy_raw read_proxy.
      Ensures-bind (build_proxy-IsProxy floats ordered outside proxy_raw) λ proxy is_proxy.
        Ensures-after λ servers_raw read_servers.
          Ensures-bind (build_servers-AllServers 0 [] servers_raw) λ servers s.
            Ensures-after λ endpoints_raw read_endpoints.
              Ensures-bind (build_endpoints-AllEndpoints _ 0 nothing_seen endpoints_raw)
                λ endpoints e. Ensures-after λ clients_raw read_clients.
                  Ensures-bind (build_clients-AllClients 0 [] clients_raw) λ clients c.
                    Ensures-ok _ (record {
                      proxy_valid = is_proxy;
                      servers_valid = s.0;
                      servers_distinct = s.1.1;
                      endpoints_valid = e.valid;
                      endpoints_distinct = e.names.1;
                      prefixes_distinct = e.prefixes.1;
                      one_catch_all = omega (arith, e.one);
                      clients_valid = c.0;
                      clients_distinct = c.1.1;
                    })

  -- A document that `_build` accepts gives a valid configuration.
  pub build-IsConfig :
      (document : Fields F) (config : RelayConfig F)
      → build floats outside document ≡ ok config
      → IsConfig floats outside config
  build-IsConfig document = (build-Ensures document).result
