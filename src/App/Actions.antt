-- ===== src/App/Actions.antt =====
-- relay/main.py: the handlers of the monitor's actions, on what `request.json()` gives: `none` if it
-- raises; and `healthz`.
use openai_ipmi_proxy.Prelude.{
  ℕ, zero, suc, ◌+◌, String, Bool, true, false, not, ◌||◌, List, [], ◌∷◌, Option, none, some,
  if◌then◌else◌, ◌==◌, string_eq, ltb,
}
use openai_ipmi_proxy.Prelude.Int.{pos, negsuc}
use openai_ipmi_proxy.Prelude.Digits.{str}
use openai_ipmi_proxy.Prelude.Dict.{lookup}
use openai_ipmi_proxy.Prelude.Text.{is_nonempty}
use openai_ipmi_proxy.Prelude.Value.{
  Value, null, bool, int, decimal, text, array, object, nil, cons, end, field, get_field,
}
use openai_ipmi_proxy.Power.Backend.{PowerBackend}
use openai_ipmi_proxy.Queue.Lifecycle.{release_session}
use openai_ipmi_proxy.Server.Runtime.{
  ServerRuntime, set_shutdown_override, issue_power_on, issue_power_off,
}
use openai_ipmi_proxy.App.Relay.{Published, Relay, modify, set_read_timeout}

-- The answers, with what they hold: 400, 404, the 500 of an error that nothing catches, and the 200s
pub data Answer : Type 0 where
  bad_request not_found internal_error : Answer
  released : Answer
  shutdown_set : Bool → Answer
  power_done : Bool → String → Bool → Answer
  timeout_set : ℕ → Answer

-- `bool(value)`. The `str` of a float that is zero is `0.0` or `-0.0`.
abbrev pub truthy : Value → Bool
truthy null = false
truthy (bool b) = b
truthy (int (pos zero)) = false
truthy (int (pos (suc n))) = true
truthy (int (negsuc n)) = true
truthy (decimal c s) = not (String.◌∷◌ c s == "0.0" || String.◌∷◌ c s == "-0.0")
truthy (text s) = is_nonempty s
truthy (array nil) = false
truthy (array (cons v rest)) = true
truthy (object end) = false
truthy (object (field k v rest)) = true

-- `data.get(key)` is truthy.
abbrev pub set_to : Option Value → Option Value
set_to none = none
set_to (some v) = if truthy v then some v else none

-- `str(value)`; that of a list or a mapping is a parameter.
abbrev pub as_str : (Value → String) → Value → String
as_str repr (text s) = s
as_str repr (int n) = str n
as_str repr (bool true) = "True"
as_str repr (bool false) = "False"
as_str repr (decimal c s) = String.◌∷◌ c s
as_str repr null = "None"
as_str repr v = repr v

-- The key of a look-up in `relay.servers`. Another value than a text finds none, and a list or a mapping
-- cannot be a key: `unhashable`.
pub data ServerKey : Type 0 where
  unhashable no_server : ServerKey
  named : String → ServerKey

abbrev pub key_of : Value → ServerKey
key_of (text s) = named s
key_of (array items) = unhashable
key_of (object fields) = unhashable
key_of v = no_server

-- `next(iter(relay.servers))`, which raises without a server
abbrev pub first_name : {A : Type 0} → List (String × A) → ServerKey
first_name [] = unhashable
first_name ((name, s) ∷ rest) = named name

abbrev pub or_first : {A : Type 0} → List (String × A) → Option Value → ServerKey
or_first servers none = first_name servers
or_first servers (some v) = key_of v

-- The loop over the endpoints: the first whose queue gives the spot back
unfoldable pub release_loop :
    ℕ → String → String → List (String × Published) → Bool × List (String × Published)
unfolding release_session
release_loop now client session [] = (false, [])
release_loop now client session ((name, e) ∷ rest) =
    let (queue, done) = release_session now e.queue client session in
    let (later, others) = release_loop now client session rest in
    if done
    then (true, (name, record e { queue = queue }) ∷ rest)
    else (later, (name, record e { queue = queue }) ∷ others)

-- `action in ("on", "off")`
abbrev pub action_of : Option Value → Option Bool
action_of (some (text s)) = if s == "on" then some true else if s == "off" then some false else none
action_of _ = none

module _ {B : Type 0} (api : PowerBackend B) (repr : Value → String) where
  abbrev pub answer_release : Relay B → Bool × List (String × Published) → Answer × Relay B
  answer_release relay (true, endpoints) = (released, record relay { endpoints = endpoints })
  answer_release relay (false, endpoints) = (not_found, record relay { endpoints = endpoints })

  abbrev pub release_named : ℕ → Relay B → Option Value → Option Value → Answer × Relay B
  release_named now relay (some client) (some session) =
      answer_release relay
        (release_loop now (as_str repr client) (as_str repr session) relay.endpoints)
  release_named now relay _ _ = (bad_request, relay)

  unfoldable pub monitor_release : ℕ → Option Value → Relay B → Answer × Relay B
  unfolding get_field release_loop str
  monitor_release now (some (object fields)) relay =
      release_named now relay (set_to (get_field "client" fields))
        (set_to (get_field "session" fields))
  monitor_release now _ relay = (bad_request, relay)

  abbrev pub call_found :
      Relay B
      → String
      → (String → ServerRuntime B → Answer × ServerRuntime B)
      → Option (ServerRuntime B)
      → Answer × Relay B
  call_found relay name call none = (not_found, relay)
  call_found relay name call (some server) =
      let (answer, server') = call name server in
      (answer, record relay { servers = modify name (λ old. server') relay.servers })

  -- `relay.servers.get(…)`, and the call on the server
  abbrev pub with_server :
      Relay B → ServerKey → (String → ServerRuntime B → Answer × ServerRuntime B) → Answer × Relay B
  with_server relay unhashable call = (internal_error, relay)
  with_server relay no_server call = (not_found, relay)
  with_server relay (named name) call = call_found relay name call (lookup name relay.servers)

  abbrev pub shutdown_named : Relay B → Option Value → Option Value → Answer × Relay B
  shutdown_named relay (some (bool enabled)) server =
      with_server relay (or_first relay.servers (set_to server))
        (λ name s. (shutdown_set enabled, set_shutdown_override enabled s))
  shutdown_named relay _ server = (bad_request, relay)

  unfoldable pub monitor_shutdown : Option Value → Relay B → Answer × Relay B
  unfolding get_field lookup modify set_shutdown_override
  monitor_shutdown (some (object fields)) relay =
      shutdown_named relay (get_field "enabled" fields) (get_field "server" fields)
  monitor_shutdown _ relay = (bad_request, relay)

  abbrev pub power_call : String → Bool → String → ServerRuntime B → Answer × ServerRuntime B
  power_call uuid true name s =
      let (done, s') = issue_power_on api "manual" "monitor-ui" uuid s in
      (power_done done name true, s')
  power_call uuid false name s =
      let (done, s') = issue_power_off api "manual" "monitor-ui" s in
      (power_done done name false, s')

  abbrev pub power_named : String → Relay B → Option Value → Option Bool → Answer × Relay B
  power_named uuid relay (some server) (some action) =
      with_server relay (key_of server) (power_call uuid action)
  power_named uuid relay _ _ = (bad_request, relay)

  unfoldable pub monitor_power : String → Option Value → Relay B → Answer × Relay B
  unfolding get_field lookup modify issue_power_on issue_power_off
  monitor_power uuid (some (object fields)) relay =
      power_named uuid relay (set_to (get_field "server" fields))
        (action_of (get_field "action" fields))
  monitor_power uuid _ relay = (bad_request, relay)

  abbrev pub timeout_named : Relay B → Option Value → Answer × Relay B
  timeout_named relay (some (int (pos value))) = (timeout_set value, set_read_timeout value relay)
  timeout_named relay _ = (bad_request, relay)

  unfoldable pub monitor_timeout : Option Value → Relay B → Answer × Relay B
  unfolding get_field set_read_timeout
  monitor_timeout (some (object fields)) relay =
      timeout_named relay (get_field "read_timeout" fields)
  monitor_timeout _ relay = (bad_request, relay)

-- The body of `/healthz`
pub data Health : Type 0 where
  stale_manager stale_sync : String → Health
  healthy : Bool → Health

-- `at is None or now - at > limit`
abbrev pub is_stale : ℕ → ℕ → Option ℕ → Bool
is_stale now limit none = true
is_stale now limit (some at) = ltb (at + limit) now

unfoldable pub first_stale :
    {A : Type 0} → ℕ → ℕ → (A → Option ℕ) → List (String × A) → Option String
first_stale now limit last [] = none
first_stale now limit last ((name, a) ∷ rest) =
    if is_stale now limit (last a) then some name else first_stale now limit last rest

abbrev pub last_tick : Published → Option ℕ
last_tick e = e.last_manager_tick

abbrev pub last_sync : {B : Type 0} → ServerRuntime B → Option ℕ
last_sync s = s.last_sync_at

abbrev pub report : Bool → Option String → Option String → Health
report degraded (some endpoint) server = stale_manager endpoint
report degraded none (some server) = stale_sync server
report degraded none none = healthy degraded

-- `healthz`, with times in milliseconds
unfoldable pub healthz : {B : Type 0} → ℕ → Relay B → Health
unfolding first_stale
healthz now relay =
    report relay.store_degraded (first_stale now 5_000 last_tick relay.endpoints)
      (first_stale now 15_000 last_sync relay.servers)
