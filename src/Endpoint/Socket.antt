-- ===== src/Endpoint/Socket.antt =====
-- relay/endpoints.py: the spot of a WebSocket, `_hold_ws_spot` and `_release_ws_spot`.
use openai_ipmi_proxy.Prelude.{
  ℕ, ◌+◌, ◌-◌, Bool, true, false, ◌||◌, List, [], ◌∷◌, Option, none, some, if◌then◌else◌, ltb,
  pair_eq, string_eq,
}
use openai_ipmi_proxy.Prelude.Lists.{length}
use openai_ipmi_proxy.Prelude.Dict.{has, insert, pop}
use openai_ipmi_proxy.Prelude.Heap.{update}
use openai_ipmi_proxy.Queue.State.{Key, EndpointQueue}
use openai_ipmi_proxy.Queue.Admission.{set_session, try_promote, spot_key}
use openai_ipmi_proxy.Prelude.Int.{ℤ}
use openai_ipmi_proxy.Queue.Wait.{is_past, deadline_of}

-- `session.inflight += 1`
abbrev pub count_in : EndpointQueue → ℕ → EndpointQueue
count_in q r = set_session q r (record (q.objects r) { inflight = (q.objects r).inflight + 1 })

-- The three ways to a spot in a round of `_hold_ws_spot`; the first two tests are those of `_spot_key`.
unfoldable pub try_hold : ℕ → EndpointQueue → ℕ → Option Key → Option EndpointQueue
try_hold now q r (some spot) = some (count_in q r)
try_hold now q r none =
    let s = q.objects r in
    if ltb (length q.spots) q.max_spots
    then some (record q {
      spots = insert s.key now q.spots;
      objects =
          update q.objects r
            (record s { spot_held = true; spot_acquired_at = now; inflight = s.inflight + 1 });
    })
    else none

-- One round: what the other tasks did to the queue before it, and what its calls return.
pub record SocketRound : Type 0 where
  pub others : EndpointQueue → EndpointQueue
  pub acquired_at : ℕ
  pub now : ℕ
  pub disconnected : Bool

-- The loop over the rounds that take place: whether a spot is held, no answer while it waits.
unfoldable pub hold_loop :
    Option ℕ → List SocketRound → ℕ → EndpointQueue → Option Bool × EndpointQueue
unfolding try_hold spot_key
hold_loop deadline [] r q = (none, q)
hold_loop deadline (round ∷ rounds) r q =
    let seen = round.others q in
    let rest = hold_loop deadline rounds r seen in
    elim (try_hold round.acquired_at seen r (spot_key seen (seen.objects r))) [
      | some taken ↦ (some true, taken)
      | none ↦ if is_past deadline round.now || round.disconnected then (some false, seen) else rest
    ]

unfoldable pub hold_ws_spot :
    Option ℤ → ℕ → List SocketRound → ℕ → EndpointQueue → Option Bool × EndpointQueue
unfolding hold_loop
hold_ws_spot timeout now rounds r q = hold_loop (deadline_of timeout now) rounds r q

-- `if session.inflight > 0: session.inflight -= 1`, which is `-` on ℕ
abbrev pub count_out : EndpointQueue → ℕ → EndpointQueue
count_out q r = set_session q r (record (q.objects r) { inflight = (q.objects r).inflight - 1 })

unfoldable pub release_ws_spot : ℕ → EndpointQueue → ℕ → EndpointQueue
release_ws_spot now q r =
    let left = count_out q r in
    let s = left.objects r in
    if has s.key left.spots
    then try_promote now (record left {
      spots = pop s.key left.spots;
      objects = update left.objects r (record s { spot_held = false });
    })
    else left
