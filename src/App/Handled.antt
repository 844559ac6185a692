-- ===== src/App/Handled.antt =====
-- What the handlers of requests and of WebSockets do, on every branch.
use openai_ipmi_proxy.Prelude.{
  ℕ, ◌≡◌, ◌≢◌, refl, subst, inl, inr, Bool-cases, Option-cases, arith, String, true, false, Option,
  none, some, ◌==◌, string_eq,
}
use openai_ipmi_proxy.Prelude.Lists.{All}
use openai_ipmi_proxy.Prelude.Dict.{lookup}
use openai_ipmi_proxy.Prelude.Text.{starts_with_slash, starts_with, concat}
use openai_ipmi_proxy.Routing.{route, absolute, Answers, IsRoute, route-Answers}
use openai_ipmi_proxy.Tracker.{record_request}
use openai_ipmi_proxy.App.Relay.{Published, Relay}
use openai_ipmi_proxy.App.Adoption.{Adopts, adopt-Adopts}
use openai_ipmi_proxy.App.Dispatch.{
  Reply, blocked, no_catch_all, WsReply, closed, Request, prefix_of, full_path, adopt, track,
  catch_all_endpoint, pass, proxy_to, proxy, ws_pass, ws_to, ws_proxy,
}

module _ {B : Type 0} (now : ℕ) (uuid : String) (request : Request) (relay : Relay B) where
  -- No prefix of an endpoint is one of the path.
  abbrev pub Unmatched : Type 0
  Unmatched = All (λ p. starts_with (full_path request) (prefix_of p) ≡ false) relay.endpoints

  -- The tracker with this request, of the endpoint that takes it
  abbrev pub with_tracked : Published → Relay B
  with_tracked e = record relay {
    unknown_tracker =
        record_request request.client_ip request.user_agent request.method (full_path request)
          (concat e.service_url (full_path request)) now relay.unknown_tracker;
  }

  -- The answer and the state after it, by the answer
  abbrev pub Handled : Reply × Relay B → Type 0
  Handled (Reply.admitted name false, after) =
      (e : Published) × IsRoute prefix_of (full_path request) relay.endpoints (name, e)
      × Adopts now uuid e.server relay after
  Handled (Reply.admitted name true, after) =
      Unmatched
      × (relay.unknown_path_policy ≡ "allow")
      × (relay.catch_all ≡ some name)
      × ((e : Published) × (lookup name relay.endpoints ≡ some e)
          × Adopts now uuid e.server (with_tracked e) after)
  Handled (blocked, after) = Unmatched × (relay.unknown_path_policy ≢ "allow") × (after ≡ relay)
  Handled (no_catch_all, after) =
      Unmatched
      × (relay.unknown_path_policy ≡ "allow")
      × (catch_all_endpoint relay ≡ none)
      × (after ≡ relay)

  catch_all_found :
      (name : String) (e : Published)
      → catch_all_endpoint relay ≡ some (name, e)
      → (relay.catch_all ≡ some name) × (lookup name relay.endpoints ≡ some e)
  catch_all_found name e h = elim (Option-cases relay.catch_all) [
    | inl unset ↦ absurd (ground (arith, h, unset))
    | inr (n, set) ↦ elim (Option-cases (lookup n relay.endpoints)) [
      | inl missing ↦ absurd (ground (arith, h, set, missing))
      | inr (f, found) ↦ (ground (arith, h, set, found), ground (arith, h, set, found))
    ]
  ]

  passed-Adopts :
      (e : Published)
      → Adopts now uuid e.server
          (with_tracked e)
          (adopt now uuid e (track now uuid request e relay))
  unfolding track
  passed-Adopts e = adopt-Adopts now uuid e (with_tracked e)

  pass-Handled :
      (found : Option (String × Published))
      → Unmatched
      → relay.unknown_path_policy ≡ "allow"
      → catch_all_endpoint relay ≡ found
      → Handled (pass now uuid request relay found)
  pass-Handled none u p c = (u, p, c, refl)
  pass-Handled (some (name, e)) u p c =
      let (caught, found) = catch_all_found name e c in (u, p, caught, (e, found, passed-Adopts e))

  proxy_to-Handled :
      (found : Option (String × Published))
      → Answers prefix_of (full_path request) relay.endpoints found
      → Handled (proxy_to now uuid request relay found)
  proxy_to-Handled (some (name, e)) h = (e, h, adopt-Adopts now uuid e relay)
  proxy_to-Handled none h = elim (Bool-cases (relay.unknown_path_policy == "allow")) [
    | inl allow ↦ rw allow (
        pass-Handled (catch_all_endpoint relay) h
          ((string_eq.agree relay.unknown_path_policy "allow").0 allow) refl)
    | inr block ↦ rw block (
      h,
      (λ p. ground (arith, block, string_eq.agree relay.unknown_path_policy "allow", p)),
      refl,
    )
  ]

  full_path-absolute : absolute (full_path request) ≡ full_path request
  unfolding absolute
  full_path-absolute = rw (starts_with_slash request.path) refl

  -- A request is admitted to the endpoint that `route` chooses: the first of the longest prefix of its path. Only without one the policy counts: under `allow` the catch-all endpoint takes it, unqueued and tracked, or the answer is 404; else it is 403. A request that is admitted makes the server of its endpoint active and no other: that server is owned from then on, in the power cycle it had or else a new one, if its configuration adopts on traffic, and the store is told when this is new. A request that is not admitted changes nothing.
  pub proxy-Handled : Handled (proxy now uuid request relay)
  unfolding proxy
  proxy-Handled = proxy_to-Handled (route prefix_of (full_path request) relay.endpoints) (
      subst
        (λ path.
          Answers prefix_of path relay.endpoints
            (route prefix_of (full_path request) relay.endpoints))
        full_path-absolute (route-Answers prefix_of (full_path request) relay.endpoints))

  -- What a WebSocket gets where a request gets this
  abbrev pub mirrored : Reply → WsReply
  mirrored blocked = closed
  mirrored no_catch_all = closed
  mirrored (Reply.admitted name passthrough) = WsReply.admitted name passthrough

  -- All but the tracker
  abbrev pub untracked : Relay B → Relay B
  untracked after = record after { unknown_tracker = relay.unknown_tracker }

  abbrev Mirrors : Reply × Relay B → WsReply × Relay B → Type 0
  Mirrors http ws = (ws.0 ≡ mirrored http.0) × (ws.1 ≡ untracked http.1)

  pass-Mirrors :
      (found : Option (String × Published))
      → Mirrors (pass now uuid request relay found) (ws_pass now uuid relay found)
  unfolding adopt track
  pass-Mirrors none = (refl, refl)
  pass-Mirrors (some (name, e)) = (refl, refl)

  to-Mirrors :
      (found : Option (String × Published))
      → Mirrors (proxy_to now uuid request relay found) (ws_to now uuid relay found)
  unfolding adopt
  to-Mirrors (some (name, e)) = (refl, refl)
  to-Mirrors none = elim (Bool-cases (relay.unknown_path_policy == "allow")) [
    | inl allow ↦ rw allow (pass-Mirrors (catch_all_endpoint relay))
    | inr block ↦ rw block (refl, refl)
  ]

  -- A WebSocket is routed as a request of the same path is: to the same endpoint, with the same adoption, and it is closed where the request gets 403 or 404. It differs in one thing: it leaves no entry in the tracker.
  pub ws_proxy-mirrors :
      ((ws_proxy now uuid request relay).0 ≡ mirrored (proxy now uuid request relay).0)
      × ((ws_proxy now uuid request relay).1 ≡ untracked (proxy now uuid request relay).1)
  unfolding proxy ws_proxy
  ws_proxy-mirrors = to-Mirrors (route prefix_of (full_path request) relay.endpoints)
