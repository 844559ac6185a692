-- ===== src/App/Wired.antt =====
-- The wiring of a valid configuration.
use openai_ipmi_proxy.Prelude.{
  ◌≡◌, refl, sym, ap, ◌∙◌, subst, map, true, false, Bool-cases, inl, inr, arith, ◌==◌, String, List,
  [], ◌∷◌, none, some, string_eq,
}
use openai_ipmi_proxy.Prelude.Lists.{All, find, contains, distinct}
use openai_ipmi_proxy.Prelude.Dict.{lookup, has, lookup-insert, has_of_lookup}
use openai_ipmi_proxy.Config.Models.{RelayConfig, ServerConfig, EndpointConfig, ClientConfig}
use openai_ipmi_proxy.App.Setup.{
  add_poller, WiredServer, RelayApp, add_servers, init, add_pollers, setup,
}
use openai_ipmi_proxy.Config.Node.{Floats}
use openai_ipmi_proxy.Config.Sections.{Outside}
use openai_ipmi_proxy.Config.Build.{name_of}
use openai_ipmi_proxy.Config.Rules.{IsEndpoint, is_catch_all, IsConfig}
use openai_ipmi_proxy.App.Wiring.{
  Added, add_endpoints-Added, IsPublished, host, hosted, fresh_server, name_if,
}
use openai_ipmi_proxy.Config.Result.{ok}
use openai_ipmi_proxy.Config.Rules.{OrderedLiterals}
use openai_ipmi_proxy.Config.Environ.{Environ}
use openai_ipmi_proxy.Config.Load.{Disk, load_config, load_config-IsConfig}

module _ {F : Type 0} where
  add_servers-find :
      (configs : List (ServerConfig F)) (servers : List (String × WiredServer F)) (name : String)
      → contains (map name_of configs) name ≡ false
      → lookup name (add_servers configs servers) ≡ lookup name servers
  unfolding add_servers contains
  add_servers-find [] servers name absent = refl
  add_servers-find (c ∷ configs) servers name absent =
      add_servers-find configs _ name (ground (arith, absent))
      ∙ ground (arith, absent, lookup-insert c.name name (fresh_server c) servers)

  -- Each configured server is there, with no endpoint yet.
  abbrev Built : List (String × WiredServer F) → ServerConfig F → Type 0
  Built servers c = lookup c.name servers ≡ some (fresh_server c)

  add_servers-Built :
      (configs : List (ServerConfig F)) (servers : List (String × WiredServer F))
      → distinct (map name_of configs) ≡ true
      → All (Built (add_servers configs servers)) configs
  unfolding add_servers distinct
  add_servers-Built [] servers d = tt
  add_servers-Built (c ∷ configs) servers d = (
    add_servers-find configs _ c.name (ground (arith, d))
        ∙ ground (
          arith,
          lookup-insert c.name c.name (fresh_server c) servers,
          string_eq.agree c.name c.name,
        ),
    add_servers-Built configs _ (ground (arith, d)),
  )

  Built-has :
      (servers : List (String × WiredServer F)) (configs : List (ServerConfig F)) (name : String)
      → All (Built servers) configs
      → contains (map name_of configs) name ≡ true
      → has name servers ≡ true
  unfolding contains
  Built-has servers [] name h c = absurd (ground (arith, c))
  Built-has servers (config ∷ configs) name h c = elim (Bool-cases (config.name == name)) [
    | inl here ↦
        subst (λ n. has n servers ≡ true) ((string_eq.agree config.name name).0 here)
          (has_of_lookup config.name servers _ h.0)
    | inr elsewhere ↦ Built-has servers configs name h.1 (ground (arith, c, elsewhere))
  ]

  -- All but the pollers
  abbrev core : RelayApp F → RelayApp F
  core app = record app { pollers = [] }

  add_pollers-same :
      (clients : List (ClientConfig F)) (app : RelayApp F)
      → core (add_pollers clients app) ≡ core app
  unfolding add_pollers
  add_pollers-same [] app = refl
  add_pollers-same (client ∷ clients) app =
      add_pollers-same clients (add_poller client app) ∙ ground arith

  -- What `setup` makes of a configuration
  pub record IsWired (config : RelayConfig F) (app : RelayApp F) : Type 0 where
    pub published : All (IsPublished app) config.endpoints
    pub attached :
        All
          (λ c.
            lookup c.name app.servers
            ≡ some (host (hosted c.name config.endpoints) (fresh_server c)))
          config.servers
    pub caught : app.catch_all ≡ name_if (find is_catch_all config.endpoints) none
    pub timeout : app.target_read_timeout ≡ config.proxy.target_read_timeout

module _ {F : Type 0} (floats : Floats F) (outside : Outside) (config : RelayConfig F)
    (valid : IsConfig floats outside config) where
  IsEndpoint-known :
      (servers : List (String × WiredServer F)) (endpoints : List (EndpointConfig F))
      → All (Built servers) config.servers
      → All (IsEndpoint floats (map name_of config.servers)) endpoints
      → All (λ e. has e.server servers ≡ true) endpoints
  IsEndpoint-known servers [] b h = tt
  IsEndpoint-known servers (e ∷ endpoints) b h = (
    Built-has servers config.servers e.server b h.0.server_known,
    IsEndpoint-known servers endpoints b h.1,
  )

  -- The application before its endpoints
  abbrev start : RelayApp F
  start = add_pollers config.clients (init config)

  start_servers : start.servers ≡ add_servers config.servers []
  unfolding init
  start_servers = ap (λ a. a.servers) (add_pollers-same config.clients (init config))

  All-attached :
      (result : RelayApp F) (configs : List (ServerConfig F))
      → Added config.endpoints start result
      → All (Built start.servers) configs
      → All
          (λ c.
            lookup c.name result.servers
            ≡ some (host (hosted c.name config.endpoints) (fresh_server c)))
          configs
  All-attached result [] added b = tt
  All-attached result (c ∷ configs) added b =
      (added.attached c.name (fresh_server c) b.0, All-attached result configs added b.1)

  -- A valid configuration is wired without a `KeyError`.
  pub setup-IsWired :
      (app : RelayApp F) × (setup config (init config) ≡ some app) × IsWired config app
  unfolding setup
  setup-IsWired =
      let built : All (Built start.servers) config.servers =
        subst (λ s. All (Built s) config.servers) (sym start_servers)
          (add_servers-Built config.servers [] valid.servers_distinct) in
      let (app, is_set, added) =
        add_endpoints-Added config.endpoints start valid.endpoints_distinct
          (IsEndpoint-known start.servers config.endpoints built valid.endpoints_valid) in
      (
        app,
        is_set,
        record {
          published = added.published;
          attached = All-attached app config.servers added built;
          caught =
              added.caught valid.one_catch_all
              ∙ ap (name_if (find is_catch_all config.endpoints)) (
                  unfold init in
                  ap (λ a. a.catch_all) (add_pollers-same config.clients (init config)));
          timeout =
              added.timeout
              ∙ (unfold init in
                  ap (λ a. a.target_read_timeout) (add_pollers-same config.clients (init config)));
        },
      )

module _ {F : Type 0} (floats : Floats F) (outside : Outside) where
  -- What `load_config` returns is wired without a `KeyError`, given that the literals of the floats are ordered as the numbers they stand for: each endpoint is published under its name with its own configuration, its server and the read timeout; each server lists exactly the endpoints that name it, in the order of the configuration; and the catch-all is the endpoint that is marked so, if there is one.
  pub load_config-IsWired :
      (ordered : OrderedLiterals floats) (disk : Disk F) (environ : Environ)
      (config : RelayConfig F)
      → (load_config floats outside disk environ).1 ≡ ok config
      → (app : RelayApp F) × (setup config (init config) ≡ some app) × IsWired config app
  load_config-IsWired ordered disk environ config h =
      setup-IsWired floats outside config
        (load_config-IsConfig floats outside ordered disk environ config h).0
