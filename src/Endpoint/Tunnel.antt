-- ===== src/Endpoint/Tunnel.antt =====
-- relay/endpoints.py: `admit_ws` and `_wait_ws_ready`, around the tunnel of relay/transport/ws.py, which is what the other
-- tasks do while it runs, and the release at its end.
use openai_ipmi_proxy.Prelude.{
  ℕ, ◌+◌, ◌-◌, ◌≡◌, refl, ap, String, Bool, true, false, not, ◌&&◌, List, [], ◌∷◌, ◌++◌, Option,
  none, some, if◌then◌else◌, Bool-cases, inl, inr,
}
use openai_ipmi_proxy.Queue.State.{EndpointQueue}
use openai_ipmi_proxy.Queue.Admission.{get_or_create_session}
use openai_ipmi_proxy.Prelude.Int.{ℤ}
use openai_ipmi_proxy.Queue.Wait.{Outcome, admitted, disconnected, timed_out, is_past, deadline_of}
use openai_ipmi_proxy.Endpoint.Readiness.{EndpointRuntime}
use openai_ipmi_proxy.Endpoint.Admission.{probe_if_empty}
use openai_ipmi_proxy.Endpoint.Socket.{SocketRound, hold_ws_spot, release_ws_spot}

-- What becomes of the connection: closed with 1013, closed while it was held or without a spot, tunnelled to
-- its end, or still held
pub data WsEnd : Type 0 where
  try_again_later not_admitted no_spot tunnelled held : WsEnd

module _ (B : Type 0) where
  -- One round of `_wait_ws_ready`: what the other tasks did before it, and what its calls return
  pub record ReadyRound : Type 0 where
    pub others : EndpointRuntime B → EndpointRuntime B
    pub gone : Bool
    pub now : ℕ

  -- What `admit_ws` reads of the connection and gets from outside
  pub record Visit : Type 0 where
    pub client : String
    pub session_id : String
    pub api_name : String
    pub client_ip : String
    pub user_agent : String
    pub held_at : ℕ
    pub ready_rounds : List ReadyRound
    pub looked_up_at : ℕ
    pub waits_at : ℕ
    pub spot_rounds : List SocketRound
    pub tunnel : EndpointRuntime B → EndpointRuntime B
    pub released_at : ℕ

module _ {B : Type 0} where
  -- The loop over the rounds that take place
  unfoldable pub ready_loop :
      Option ℕ → List (ReadyRound B) → EndpointRuntime B → Option Outcome × EndpointRuntime B
  ready_loop deadline [] e = (none, e)
  ready_loop deadline (round ∷ rounds) e =
      let seen = round.others e in
      let rest = ready_loop deadline rounds seen in
      if seen.queue.ready
      then (some admitted, seen)
      else if round.gone
      then (some disconnected, seen)
      else if is_past deadline round.now
      then (some timed_out, seen)
      else rest

  unfoldable pub wait_ws_ready :
      Option ℤ → ℕ → List (ReadyRound B) → EndpointRuntime B → Option Outcome × EndpointRuntime B
  unfolding ready_loop
  wait_ws_ready timeout now rounds e = ready_loop (deadline_of timeout now) rounds e

  -- The connection that has a spot, or none, on the answer of `_hold_ws_spot`
  abbrev pub with_spot :
      Visit B → EndpointRuntime B → ℕ → Option Bool × EndpointQueue → WsEnd × EndpointRuntime B
  with_spot visit e r (none, q) = (held, record e { queue = q })
  with_spot visit e r (some false, q) = (no_spot, record e { queue = q })
  with_spot visit e r (some true, q) =
      let ended = visit.tunnel (record e { queue = q }) in
      (tunnelled, record ended { queue = release_ws_spot visit.released_at ended.queue r })

  -- The connection once its endpoint is ready
  unfoldable pub tunnel_ready : Bool → Visit B → EndpointRuntime B → WsEnd × EndpointRuntime B
  unfolding get_or_create_session hold_ws_spot release_ws_spot
  tunnel_ready true visit e =
      let (q, r) =
        get_or_create_session e.queue visit.client visit.session_id visit.api_name visit.client_ip
          visit.user_agent visit.looked_up_at in
      with_spot visit e r (hold_ws_spot e.queue_timeout visit.waits_at visit.spot_rounds r q)
  tunnel_ready false visit e =
      let ended = visit.tunnel (record e { active_forwards = e.active_forwards + 1 }) in
      (tunnelled, record ended { active_forwards = ended.active_forwards - 1 })

  abbrev pub if_admitted :
      Bool → Visit B → Option Outcome × EndpointRuntime B → WsEnd × EndpointRuntime B
  if_admitted queued visit (some admitted, e) = tunnel_ready queued visit e
  if_admitted queued visit (some disconnected, e) = (not_admitted, e)
  if_admitted queued visit (some timed_out, e) = (not_admitted, e)
  if_admitted queued visit (none, e) = (held, e)

  -- `admit_ws`; `queued` is the routing of the endpoint.
  unfoldable pub admit_ws :
      (EndpointRuntime B → EndpointRuntime B)
      → Bool
      → Bool
      → Visit B
      → EndpointRuntime B
      → WsEnd × EndpointRuntime B
  unfolding tunnel_ready wait_ws_ready
  admit_ws probed queued passthrough visit e =
      let gated = probe_if_empty probed e in
      let takes_spot = queued && not passthrough in
      if gated.queue.ready
      then tunnel_ready takes_spot visit gated
      else if gated.errors_when_not_ready
      then (try_again_later, gated)
      else if_admitted takes_spot visit
          (wait_ws_ready gated.queue_timeout visit.held_at visit.ready_rounds gated)

  -- What the other tasks do in these rounds
  abbrev pub others_do : List (ReadyRound B) → EndpointRuntime B → EndpointRuntime B
  others_do [] e = e
  others_do (round ∷ rounds) e = others_do rounds (round.others e)

  -- The state is what the other tasks made of it in some of the rounds, the first ones.
  abbrev pub Untouched : List (ReadyRound B) → EndpointRuntime B → EndpointRuntime B → Type 0
  Untouched rounds e after =
      (before : List (ReadyRound B)) × (rest : List (ReadyRound B)) × (rounds ≡ before ++ rest)
      × (after ≡ others_do before e)

  one_round :
      (round : ReadyRound B) (rounds : List (ReadyRound B)) (e : EndpointRuntime B)
      → Untouched (round ∷ rounds) e (round.others e)
  one_round round rounds e = (round ∷ [], rounds, refl, refl)

  ready_loop-Untouched :
      (deadline : Option ℕ) (rounds : List (ReadyRound B)) (e : EndpointRuntime B)
      → Untouched rounds e (ready_loop deadline rounds e).1
  unfolding ready_loop
  ready_loop-Untouched deadline [] e = ([], [], refl, refl)
  ready_loop-Untouched deadline (round ∷ rounds) e =
      elim (Bool-cases (round.others e).queue.ready) [
        | inl ready ↦ simp ready (one_round round rounds e)
        | inr waits ↦ elim (Bool-cases round.gone) [
          | inl gone ↦ simp (waits, gone) (one_round round rounds e)
          | inr here ↦ elim (Bool-cases (is_past deadline round.now)) [
            | inl past ↦ simp (waits, here, past) (one_round round rounds e)
            | inr early ↦
                let (before, rest, parts, same) =
                  ready_loop-Untouched deadline rounds (round.others e) in
                simp (waits, here, early) (round ∷ before, rest, ap (◌∷◌ round) parts, same)
          ]
        ]
      ]

  -- A WebSocket that is held until its endpoint is ready changes nothing itself: the state, that of its server included, is what the other tasks made of it in the rounds that took place.
  pub wait_ws_ready-Untouched :
      (timeout : Option ℤ) (now : ℕ) (rounds : List (ReadyRound B)) (e : EndpointRuntime B)
      → Untouched rounds e (wait_ws_ready timeout now rounds e).1
  unfolding wait_ws_ready
  wait_ws_ready-Untouched timeout now rounds e =
      ready_loop-Untouched (deadline_of timeout now) rounds e
