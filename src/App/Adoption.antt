-- ===== src/App/Adoption.antt =====
-- What the traffic of a request does to the servers.
use openai_ipmi_proxy.Prelude.{
  ℕ, ◌≡◌, refl, inl, inr, Bool-cases, arith, String, Bool, true, false, not, ◌&&◌, List, [], ◌∷◌,
  ◌++◌, Option, none, some, ◌==◌, string_eq,
}
use openai_ipmi_proxy.Prelude.Dict.{lookup}
use openai_ipmi_proxy.Server.Runtime.State.{
  ServerRuntime, no_values, external_change, set_server_runtime, log_power_event,
}
use openai_ipmi_proxy.Server.Runtime.{keep_cycle, on_routed_traffic}
use openai_ipmi_proxy.App.Relay.{Published, Relay, modify}
use openai_ipmi_proxy.App.Dispatch.{adopt}

module _ {B : Type 0} (now : ℕ) (uuid : String) where
  abbrev pub takes_over : ServerRuntime B → Bool
  takes_over s = s.config.adopt_on_traffic && not s.owned

  -- A server before and after the traffic: it is active; if it is not owned and its configuration
  -- adopts on traffic, it is owned, and the store is told.
  abbrev pub Carries : ServerRuntime B → ServerRuntime B → Type 0
  Carries s t =
      (takes_over s ≡ false → t ≡ record s { last_activity = now })
      × (takes_over s ≡ true
          → t ≡ record s {
            last_activity = now;
            owned = true;
            cycle_id = some (keep_cycle s.cycle_id uuid);
            journal =
                (s.journal
                  ++ set_server_runtime (record no_values {
                    owned = some true;
                    cycle_id = some (some (keep_cycle s.cycle_id uuid));
                  })
                    ∷ [])
                ++ log_power_event external_change "adopted" "proxy" true ∷ [];
          })

  -- Of a server that is found before and after
  abbrev pub CarriesFound : Option (ServerRuntime B) → Option (ServerRuntime B) → Type 0
  CarriesFound none none = Unit
  CarriesFound (some s) (some t) = Carries s t
  CarriesFound _ _ = ⊥

  -- The server of this name carries the traffic, every other one stays, and so does all else.
  abbrev pub Adopts : String → Relay B → Relay B → Type 0
  Adopts server before after =
      CarriesFound (lookup server before.servers) (lookup server after.servers)
      × ((n : String) → (n == server) ≡ false → lookup n after.servers ≡ lookup n before.servers)
      × (after ≡ record before { servers = after.servers })

  on_routed_traffic-Carries : (s : ServerRuntime B) → Carries s (on_routed_traffic now uuid s)
  unfolding on_routed_traffic
  on_routed_traffic-Carries s = ground arith

  modify-CarriesFound :
      (server : String) (servers : List (String × ServerRuntime B))
      → CarriesFound
          (lookup server servers)
          (lookup server (modify server (on_routed_traffic now uuid) servers))
  unfolding modify lookup
  modify-CarriesFound server [] = tt
  modify-CarriesFound server ((n, s) ∷ servers) = elim (Bool-cases (n == server)) [
    | inl here ↦ simp here (on_routed_traffic-Carries s)
    | inr other ↦ simp other (modify-CarriesFound server servers)
  ]

  lookup-modify :
      (server n : String) (servers : List (String × ServerRuntime B))
      → (n == server) ≡ false
      → lookup n (modify server (on_routed_traffic now uuid) servers) ≡ lookup n servers
  unfolding modify lookup
  lookup-modify server n [] h = refl
  lookup-modify server n ((m, s) ∷ servers) h = ground (
    arith,
    string_eq.agree m server,
    string_eq.agree m n,
    string_eq.agree n server,
    h,
    lookup-modify server n servers h,
  )

  pub adopt-Adopts :
      (e : Published) (relay : Relay B) → Adopts e.server relay (adopt now uuid e relay)
  unfolding adopt
  adopt-Adopts e relay = (
    modify-CarriesFound e.server relay.servers,
    (λ n other. lookup-modify e.server n relay.servers other),
    refl,
  )
