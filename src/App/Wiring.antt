-- ===== src/App/Wiring.antt =====
-- The loops of `RelayApp.setup` over the servers, the clients and the endpoints.
use openai_ipmi_proxy.Prelude.{
  ◌≤◌, ◌≡◌, refl, sym, ap, ◌∙◌, map, Bool, true, false, inl, inr, Bool-cases, Option-cases, arith,
  String, Bool, List, [], ◌∷◌, ◌++◌, Option, none, some, if◌then◌else◌, ◌==◌, string_eq,
}
use openai_ipmi_proxy.Prelude.Lists.{All, contains, distinct, count, find}
use openai_ipmi_proxy.Prelude.Dict.{lookup, has, lookup-insert, has-insert, has-eq-false}
use mathlib.Core.List.{append-nil, append_assoc}
use openai_ipmi_proxy.Config.Models.{ServerConfig, EndpointConfig}
use openai_ipmi_proxy.App.Setup.{wired, WiredServer, RelayApp, attach, add_endpoint, add_endpoints}
use openai_ipmi_proxy.Config.Rules.{endpoint_name, is_catch_all}

module _ {F : Type 0} where
  -- The names of the endpoints that a server hosts, in the order of the configuration
  abbrev pub hosted : String → List (EndpointConfig F) → List String
  hosted server [] = []
  hosted server (e ∷ endpoints) =
      if e.server == server then e.name ∷ hosted server endpoints else hosted server endpoints

  abbrev pub host : List String → WiredServer F → WiredServer F
  host names server = record server { endpoints = server.endpoints ++ names }

  abbrev pub name_if : Option (EndpointConfig F) → Option String → Option String
  name_if none old = old
  name_if (some e) old = some e.name

  -- The endpoint stands under its name, with its server and the read timeout.
  abbrev pub IsPublished : RelayApp F → EndpointConfig F → Type 0
  IsPublished app e =
      lookup e.name app.endpoints
      ≡ some (record { config = e; server = e.server; read_timeout = app.target_read_timeout })

  abbrev pub fresh_server : ServerConfig F → WiredServer F
  fresh_server config = record { config = config; endpoints = [] }

  -- What the loop over the endpoints gives, from an application
  pub record Added (endpoints : List (EndpointConfig F)) (app result : RelayApp F) : Type 0 where
    pub published : All (IsPublished result) endpoints
    pub others :
        (name : String)
        → contains (map endpoint_name endpoints) name ≡ false
        → lookup name result.endpoints ≡ lookup name app.endpoints
    pub attached :
        (name : String) (server : WiredServer F)
        → lookup name app.servers ≡ some server
        → lookup name result.servers ≡ some (host (hosted name endpoints) server)
    pub timeout : result.target_read_timeout ≡ app.target_read_timeout
    pub caught :
        count is_catch_all endpoints ≤ 1
        → result.catch_all ≡ name_if (find is_catch_all endpoints) app.catch_all

  -- Each endpoint names a server of the application.
  abbrev Known : RelayApp F → List (EndpointConfig F) → Type 0
  Known app endpoints = All (λ e. has e.server app.servers ≡ true) endpoints

  Known-insert :
      (name : String) (server : WiredServer F) (app : RelayApp F) (e : EndpointConfig F)
      (endpoints : List (EndpointConfig F))
      → Known app endpoints
      → Known (add_endpoint e server app) endpoints
  Known-insert name server app e [] h = tt
  Known-insert name server app e (f ∷ endpoints) h = (
    ground (arith, h.0, has-insert e.server f.server (attach e.name server) app.servers),
    Known-insert name server app e endpoints h.1,
  )

  some_injective : (a b : WiredServer F) → some a ≡ some b → a ≡ b
  some_injective a b h = ground (arith, h)

  add_endpoints_step :
      (e : EndpointConfig F) (endpoints : List (EndpointConfig F)) (app : RelayApp F)
      (server : WiredServer F)
      → lookup e.server app.servers ≡ some server
      → add_endpoints (e ∷ endpoints) app ≡ add_endpoints endpoints (add_endpoint e server app)
  add_endpoints_step e endpoints app server found =
      unfold add_endpoints in rw (found, add_endpoints) refl

  find-none :
      (p : EndpointConfig F → Bool) (xs : List (EndpointConfig F))
      → count p xs ≡ 0
      → find p xs ≡ none
  unfolding find count
  find-none p [] h = refl
  find-none p (x ∷ xs) h = ground (arith, h, find-none p xs)

  -- The step of the loop, from what the rest of it gives
  module _ (e : EndpointConfig F) (endpoints : List (EndpointConfig F)) (app result : RelayApp F)
      (server : WiredServer F) (found : lookup e.server app.servers ≡ some server)
      (once : contains (map endpoint_name endpoints) e.name ≡ false)
      (rest : Added endpoints (add_endpoint e server app) result) where
    attached-cons :
        (name : String) (old : WiredServer F)
        → lookup name app.servers ≡ some old
        → lookup name result.servers ≡ some (host (hosted name (e ∷ endpoints)) old)
    attached-cons name old h = elim (Bool-cases (e.server == name)) [
      | inl here ↦
          let same : e.server ≡ name = (string_eq.agree e.server name).0 here in
          let is_old : server ≡ old =
            some_injective server old (sym found ∙ ap (λ n. lookup n app.servers) same ∙ h) in
          rw here (
            rest.attached name (attach e.name server)
              (lookup-insert e.server name (attach e.name server) app.servers ∙ rw here refl)
            ∙ ap (λ names. some (record server { endpoints = names }))
                (append_assoc server.endpoints (e.name ∷ []) (hosted name endpoints))
            ∙ ap (λ w. some (host (e.name ∷ hosted name endpoints) w)) is_old)
      | inr elsewhere ↦ rw elsewhere (
          rest.attached name old
            (lookup-insert e.server name (attach e.name server) app.servers ∙ rw elsewhere h))
    ]

    caught-cons :
        count is_catch_all (e ∷ endpoints) ≤ 1
        → result.catch_all ≡ name_if (find is_catch_all (e ∷ endpoints)) app.catch_all
    unfolding count find
    caught-cons h = elim (Bool-cases e.catch_all) [
      | inl caught ↦ ground (arith, h, caught, rest.caught, find-none is_catch_all endpoints)
      | inr other ↦ ground (arith, h, other, rest.caught)
    ]

    others-cons :
        (name : String)
        → contains (map endpoint_name (e ∷ endpoints)) name ≡ false
        → lookup name result.endpoints ≡ lookup name app.endpoints
    unfolding contains
    others-cons name absent =
        ground
          (arith, absent, rest.others name, lookup-insert e.name name (wired e app) app.endpoints)

    IsPublished-cons : IsPublished result e
    IsPublished-cons = ground (
      arith,
      rest.others e.name once,
      rest.timeout,
      lookup-insert e.name e.name (wired e app) app.endpoints,
      string_eq.agree e.name e.name,
    )

  pub add_endpoints-Added :
      (endpoints : List (EndpointConfig F)) (app : RelayApp F)
      → distinct (map endpoint_name endpoints) ≡ true
      → Known app endpoints
      → (result : RelayApp F) × (add_endpoints endpoints app ≡ some result)
        × Added endpoints app result
  unfolding add_endpoints distinct contains find
  add_endpoints-Added [] app d k = (
    app,
    refl,
    record {
      published = tt;
      others = λ name absent. refl;
      attached = λ name server h.
          h
          ∙ ap (λ names. some (record server { endpoints = names }))
              (sym (append-nil server.endpoints));
      timeout = refl;
      caught = λ h. refl;
    },
  )
  add_endpoints-Added (e ∷ endpoints) app d k = elim (Option-cases (lookup e.server app.servers)) [
    | inl unknown ↦ absurd (ground (arith, k.0, has-eq-false e.server app.servers unknown))
    | inr (server, found) ↦
        let (result, wired_rest, rest) =
          add_endpoints-Added endpoints (add_endpoint e server app) (ground (arith, d))
            (Known-insert e.name server app e endpoints k.1) in
        let once : contains (map endpoint_name endpoints) e.name ≡ false = ground (arith, d) in
        (
          result,
          add_endpoints_step e endpoints app server found ∙ wired_rest,
          record {
            published =
                (IsPublished-cons e endpoints app result server found once rest, rest.published);
            others = others-cons e endpoints app result server found once rest;
            attached = attached-cons e endpoints app result server found once rest;
            timeout = rest.timeout;
            caught = caught-cons e endpoints app result server found once rest;
          },
        )
  ]
