-- ===== src/App/Relay.antt =====
-- relay/main.py: the state that the handlers read and change, and `set_read_timeout`. An endpoint refers to
-- its server by the name, as `catch_all` does to its endpoint.
use openai_ipmi_proxy.Prelude.{
  ℕ, String, Bool, List, [], ◌∷◌, Option, if◌then◌else◌, ◌==◌, string_eq,
}
use openai_ipmi_proxy.Queue.State.{EndpointQueue}
use openai_ipmi_proxy.Server.Runtime.{ServerRuntime}
use openai_ipmi_proxy.Tracker.{Entries}

pub record Published : Type 0 where
  pub path_prefix : String
  pub server : String
  pub service_url : String
  pub queue : EndpointQueue
  pub read_timeout : ℕ
  pub last_manager_tick : Option ℕ

pub record Relay (B : Type 0) : Type 0 where
  pub unknown_path_policy : String
  pub servers : List (String × ServerRuntime B)
  pub endpoints : List (String × Published)
  pub catch_all : Option String
  pub unknown_tracker : Entries
  pub target_read_timeout : ℕ
  pub started_at : ℕ
  pub store_degraded : Bool

-- A change of the object that a dictionary has under a key
unfoldable pub modify : {A : Type 0} → String → (A → A) → List (String × A) → List (String × A)
modify name f [] = []
modify name f ((n, a) ∷ rest) = if n == name then (n, f a) ∷ rest else (n, a) ∷ modify name f rest

-- `endpoint.read_timeout = value` for each endpoint
unfoldable pub set_each : ℕ → List (String × Published) → List (String × Published)
set_each value [] = []
set_each value ((name, e) ∷ rest) = (name, record e { read_timeout = value }) ∷ set_each value rest

module _ {B : Type 0} where
  unfoldable pub set_read_timeout : ℕ → Relay B → Relay B
  unfolding set_each
  set_read_timeout value relay = record relay {
    target_read_timeout = value;
    endpoints = set_each value relay.endpoints;
  }
