-- ===== src/App/Effects.antt =====
-- What the monitor's actions change, and when `healthz` answers 200.
use openai_ipmi_proxy.Prelude.{
  ℕ, ◌≡◌, refl, sym, ap, subst, inl, inr, Bool-cases, arith, String, Bool, true, false, List, [],
  ◌∷◌, ◌++◌, Option, none, some, string_eq,
}
use openai_ipmi_proxy.Prelude.Lists.{All}
use openai_ipmi_proxy.Prelude.Int.{pos, negsuc}
use openai_ipmi_proxy.Prelude.Dict.{lookup}
use openai_ipmi_proxy.Prelude.Value.{
  Value, null, bool, int, decimal, text, array, object, get_field,
}
use openai_ipmi_proxy.Power.Backend.{PowerBackend}
use openai_ipmi_proxy.Queue.State.{EndpointQueue, Key}
use openai_ipmi_proxy.Queue.Invariant.{IsValid}
use openai_ipmi_proxy.Queue.Lifecycle.{release_session, release_found}
use openai_ipmi_proxy.Queue.Validity.Spots.{release_session-IsValid}
use openai_ipmi_proxy.Server.Runtime.{ServerRuntime}
use openai_ipmi_proxy.App.Relay.{Published, Relay}
use openai_ipmi_proxy.App.Actions.{
  call_found, Answer, bad_request, not_found, internal_error, set_to, as_str, ServerKey, unhashable,
  no_server, named, key_of, or_first, release_loop, action_of, answer_release, release_named,
  monitor_release, with_server, shutdown_named, monitor_shutdown, power_call, power_named,
  monitor_power, timeout_named, monitor_timeout,
}

-- The state that a release leaves a queue in, when it finds nothing
release_found_refused :
    (now : ℕ) (q : EndpointQueue) (key : Key) (o : Option ℕ)
    → (release_found now q key o).1 ≡ false
    → (release_found now q key o).0 ≡ q
unfolding release_found
release_found_refused now q key none h = refl
release_found_refused now q key (some r) h = ground (arith, h)

release_refused :
    (now : ℕ) (q : EndpointQueue) (client session : String)
    → (release_session now q client session).1 ≡ false
    → (release_session now q client session).0 ≡ q
unfolding release_session
release_refused now q client session h = release_found_refused now q (client, session) _ h

module _ (now : ℕ) (client session : String) where
  -- The queue of the endpoint has no spot to give back.
  abbrev pub HoldsNone : String × Published → Type 0
  HoldsNone p = (release_session now p.1.queue client session).1 ≡ false

  abbrev pub released_at : String × Published → String × Published
  released_at p = (p.0, record p.1 { queue = (release_session now p.1.queue client session).0 })

  -- What the loop leaves: all as it was, or the first endpoint that holds a spot without it
  abbrev pub Releases : List (String × Published) → Bool × List (String × Published) → Type 0
  Releases endpoints (false, after) = All HoldsNone endpoints × (after ≡ endpoints)
  Releases endpoints (true, after) =
      (before : List (String × Published)) × (p : String × Published) × (rest : List
        (String × Published))
      × (endpoints ≡ before ++ p ∷ rest)
      × All HoldsNone before
      × ((release_session now p.1.queue client session).1 ≡ true)
      × (after ≡ before ++ released_at p ∷ rest)

  -- An endpoint in front that has no spot to give back
  skip :
      (p : String × Published) (rest : List (String × Published))
      (later : Bool × List (String × Published))
      → HoldsNone p
      → Releases rest later
      → Releases (p ∷ rest) (later.0, p ∷ later.1)
  skip p rest (false, after) none_here h = ((none_here, h.0), ap (◌∷◌ p) h.1)
  skip p rest (true, after) none_here (before, q, after_q, parts, earlier, done, is_after) =
      (p ∷ before, q, after_q, ap (◌∷◌ p) parts, (none_here, earlier), done, ap (◌∷◌ p) is_after)

  unchanged :
      (name : String) (e : Published) → HoldsNone (name, e) → released_at (name, e) ≡ (name, e)
  unchanged name e h =
      ap (λ q. (name, record e { queue = q })) (release_refused now e.queue client session h)

  pub release_loop-Releases :
      (endpoints : List (String × Published))
      → Releases endpoints (release_loop now client session endpoints)
  unfolding release_loop
  release_loop-Releases [] = (tt, refl)
  release_loop-Releases ((name, e) ∷ rest) =
      elim (Bool-cases (release_session now e.queue client session).1) [
        | inl done ↦ simp done ([], (name, e), rest, refl, tt, done, refl)
        | inr none_here ↦ simp none_here (
            subst
              (λ p. Releases ((name, e) ∷ rest) (
                (release_loop now client session rest).0,
                p ∷ (release_loop now client session rest).1,
              ))
              (sym (unchanged name e none_here))
              (skip (name, e) rest (release_loop now client session rest) none_here
                (release_loop-Releases rest)))
      ]

  pub release_loop-IsValid :
      (endpoints : List (String × Published))
      → All (λ p. IsValid p.1.queue) endpoints
      → All (λ p. IsValid p.1.queue) (release_loop now client session endpoints).1
  unfolding release_loop
  release_loop-IsValid [] v = tt
  release_loop-IsValid ((name, e) ∷ rest) v =
      elim (Bool-cases (release_session now e.queue client session).1) [
        | inl done ↦ simp done (release_session-IsValid now e.queue client session v.0, v.1)
        | inr none_here ↦
            simp none_here (
              release_session-IsValid now e.queue client session v.0,
              release_loop-IsValid rest v.1,
            )
      ]

-- The actions of the monitor
pub data Action : Type 0 where
  release shutdown power timeout : Option Value → Action

-- An answer with a status of 400 or more
abbrev pub IsRefusal : Answer → Type 0
IsRefusal bad_request = Unit
IsRefusal not_found = Unit
IsRefusal internal_error = Unit
IsRefusal _ = ⊥

module _ {B : Type 0} (api : PowerBackend B) (repr : Value → String) (now : ℕ) (uuid : String)
    (relay : Relay B) where
  unfoldable pub perform : Action → Answer × Relay B
  perform (release json) = monitor_release api repr now json relay
  perform (shutdown json) = monitor_shutdown api repr json relay
  perform (power json) = monitor_power api repr uuid json relay
  perform (timeout json) = monitor_timeout api repr json relay

  abbrev Refuses : Answer × Relay B → Type 0
  Refuses r = IsRefusal r.0 → r.1 ≡ relay

  answer_release-Refuses :
      (client session : String) (r : Bool × List (String × Published))
      → Releases now client session relay.endpoints r
      → Refuses (answer_release api repr relay r)
  answer_release-Refuses client session (true, after) h refused = absurd refused
  answer_release-Refuses client session (false, after) h refused =
      ap (λ endpoints. record relay { endpoints = endpoints }) h.1

  release_named-Refuses :
      (client session : Option Value) → Refuses (release_named api repr now relay client session)
  release_named-Refuses (some c) (some s) =
      answer_release-Refuses (as_str repr c) (as_str repr s) _
        (release_loop-Releases now (as_str repr c) (as_str repr s) relay.endpoints)
  release_named-Refuses none s = λ refused. refl
  release_named-Refuses (some c) none = λ refused. refl

  call_found-Refuses :
      (name : String) (call : String → ServerRuntime B → Answer × ServerRuntime B)
      → ((n : String) (s : ServerRuntime B) → ¬ (IsRefusal (call n s).0))
      → (found : Option (ServerRuntime B)) → Refuses (call_found api repr relay name call found)
  call_found-Refuses name call done none = λ refused. refl
  call_found-Refuses name call done (some server) = λ refused. absurd (done name server refused)

  with_server-Refuses :
      (key : ServerKey) (call : String → ServerRuntime B → Answer × ServerRuntime B)
      → ((name : String) (s : ServerRuntime B) → ¬ (IsRefusal (call name s).0))
      → Refuses (with_server api repr relay key call)
  with_server-Refuses unhashable call done = λ refused. refl
  with_server-Refuses no_server call done = λ refused. refl
  with_server-Refuses (named name) call done =
      call_found-Refuses name call done (lookup name relay.servers)

  shutdown_named-Refuses :
      (enabled server : Option Value) → Refuses (shutdown_named api repr relay enabled server)
  shutdown_named-Refuses (some (bool b)) server =
      with_server-Refuses (or_first relay.servers (set_to server)) _ (λ name s h. h)
  shutdown_named-Refuses none server = λ refused. refl
  shutdown_named-Refuses (some null) server = λ refused. refl
  shutdown_named-Refuses (some (int n)) server = λ refused. refl
  shutdown_named-Refuses (some (decimal c s)) server = λ refused. refl
  shutdown_named-Refuses (some (text s)) server = λ refused. refl
  shutdown_named-Refuses (some (array items)) server = λ refused. refl
  shutdown_named-Refuses (some (object fields)) server = λ refused. refl

  power_call_done :
      (action : Bool) (name : String) (s : ServerRuntime B)
      → ¬ (IsRefusal (power_call api repr uuid action name s).0)
  power_call_done true name s h = h
  power_call_done false name s h = h

  power_named-Refuses :
      (server : Option Value) (action : Option Bool)
      → Refuses (power_named api repr uuid relay server action)
  power_named-Refuses (some server) (some action) =
      with_server-Refuses (key_of server) _ (power_call_done action)
  power_named-Refuses none action = λ refused. refl
  power_named-Refuses (some server) none = λ refused. refl

  timeout_named-Refuses : (value : Option Value) → Refuses (timeout_named api repr relay value)
  timeout_named-Refuses (some (int (pos n))) = λ refused. absurd refused
  timeout_named-Refuses (some (int (negsuc n))) = λ refused. refl
  timeout_named-Refuses none = λ refused. refl
  timeout_named-Refuses (some null) = λ refused. refl
  timeout_named-Refuses (some (bool b)) = λ refused. refl
  timeout_named-Refuses (some (decimal c s)) = λ refused. refl
  timeout_named-Refuses (some (text s)) = λ refused. refl
  timeout_named-Refuses (some (array items)) = λ refused. refl
  timeout_named-Refuses (some (object fields)) = λ refused. refl

  -- An action of the monitor that is refused, with 400, 404 or 500, whatever its body is, changes nothing: no endpoint, no server, no call of the store, no timeout.
  pub refused_changes_nothing :
      (action : Action) → IsRefusal (perform action).0 → (perform action).1 ≡ relay
  unfolding perform monitor_release monitor_shutdown monitor_power monitor_timeout
  refused_changes_nothing (release (some (object fields))) =
      release_named-Refuses (set_to (get_field "client" fields))
        (set_to (get_field "session" fields))
  refused_changes_nothing (shutdown (some (object fields))) =
      shutdown_named-Refuses (get_field "enabled" fields) (get_field "server" fields)
  refused_changes_nothing (power (some (object fields))) =
      power_named-Refuses (set_to (get_field "server" fields))
        (action_of (get_field "action" fields))
  refused_changes_nothing (timeout (some (object fields))) =
      timeout_named-Refuses (get_field "read_timeout" fields)
  refused_changes_nothing _ = λ refused. refl
