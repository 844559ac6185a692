-- ===== src/Endpoint/Surrender.antt =====
-- relay/endpoints.py and relay/queue.py: what a report of the client means for the spot, and the spot of a
-- WebSocket that is closed.
use openai_ipmi_proxy.Prelude.{
  ℕ, ◌+◌, ◌≤◌, ◌<◌, ◌≡◌, ◌≢◌, ◌∙◌, subst, sym, inl, inr, String, true, false, [], Option, none,
  some, ltb, arith, Bool-cases, Option-cases, string_eq, pair_eq, nat_eq, beq_refl,
}
use openai_ipmi_proxy.Prelude.Lists.{length}
use openai_ipmi_proxy.Prelude.Dict.{lookup, has, has-pop_self, length-insert, has-insert}
use openai_ipmi_proxy.Prelude.Value.{Value, text, object, Fields, get_field}
use openai_ipmi_proxy.Queue.State.{Key, Session, waiting, EndpointQueue}
use openai_ipmi_proxy.Queue.Invariant.{IsValid}
use openai_ipmi_proxy.Queue.Admission.{
  set_session, spot_key, shared_spot, try_promote, promote_loop,
}
use openai_ipmi_proxy.Queue.Lifecycle.{
  is_known, status_unreachable_grace, tick_session, waiting_for_input,
}
use openai_ipmi_proxy.Clients.Poller.{Pending}
use openai_ipmi_proxy.Endpoint.Polling.{report_session, take_answers}
use openai_ipmi_proxy.Endpoint.Socket.{try_hold, release_ws_spot}
use openai_ipmi_proxy.Endpoint.Freed.{
  GivesUp, blocked_now, tick_session-GivesUp, tick_session-keeps, still_blocked, busy_now,
}

-- In a well-formed queue, a known client with nothing in flight and a spot, which was not idle, and of which a poll reports a request that waits for its user: the first step of `tick` within the grace gives the spot back, lets the queue promote and says why, whatever the status map reported.
pub pending_surrenders :
    (attempt : Option Value → String) (reported now later : ℕ) (statuses : Option Fields)
    (pending : Pending) (reason : String) (q : EndpointQueue) (key : Key) (r : ℕ)
    → IsValid q
    → is_known (q.objects r) ≡ true
    → (q.objects r).inflight ≡ 0
    → (q.objects r).spot_held ≡ true
    → (q.objects r).idle_since ≡ none
    → lookup (q.objects r).session_id pending ≡ some reason
    → 0 < reported
    → now < reported + status_unreachable_grace
    → let polled =
        set_session q r (report_session attempt reported statuses (some pending) (q.objects r)) in
      GivesUp q later key r (waiting_for_input reason) (tick_session now later (polled, []) key r)
pending_surrenders attempt reported now later statuses pending reason q key r v known still spot
      awake found after fresh =
    tick_session-GivesUp now later (waiting_for_input reason) q key r _ v (λ p.
      let (due, why, held) =
        blocked_now attempt reported now statuses pending reason q.busy_window p (q.objects r) known
          still awake found after fresh in
      (due, why, held ∙ spot))

-- In a well-formed queue, a known client that waits for its user as of a report within the grace, with nothing in flight and a spot, and that was not idle: if the next poll fails altogether, the first step of `tick` gives the spot back. If only the poll of the pending requests fails, and the status map reports busy, as it does while the client waits for its user, then the report of waiting is lost, and the step keeps the spot.
pub failed_pending_clears :
    (attempt : Option Value → String) (reported now later : ℕ) (statuses st : Fields)
    (q : EndpointQueue) (key : Key) (r : ℕ)
    → IsValid q
    → is_known (q.objects r) ≡ true
    → (q.objects r).inflight ≡ 0
    → (q.objects r).spot_held ≡ true
    → (q.objects r).idle_since ≡ none
    → (q.objects r).client_status ≡ some waiting
    → 0 < (q.objects r).client_status_at
    → now < (q.objects r).client_status_at + status_unreachable_grace
    → get_field (q.objects r).session_id statuses ≡ some (object st)
    → get_field "type" st ≡ some (text "busy")
    → now < reported + status_unreachable_grace
    → let polled = λ (answer : Option Fields).
      set_session q r (report_session attempt reported answer none (q.objects r)) in
      let (kept, released) = tick_session now later (polled (some statuses), []) key r in
      GivesUp q later key r
        (waiting_for_input (q.objects r).client_status_detail)
        (tick_session now later (polled none, []) key r)
      × ((released ≡ []) × (kept.spots ≡ q.spots) × ((kept.objects r).spot_held ≡ true))
unfolding report_session take_answers
failed_pending_clears attempt reported now later statuses st q key r v known still spot awake waits
      after fresh found kind recent =
    (
      tick_session-GivesUp now later (waiting_for_input (q.objects r).client_status_detail) q key r
          _ v
          (λ p.
            let (due, why, held) =
              still_blocked q.busy_window now p (q.objects r) known still awake waits after fresh in
            (due, why, held ∙ spot)),
      tick_session-keeps now later q key r
          (report_session attempt reported (some statuses) none (q.objects r))
          (λ p.
            let (early, held) =
              busy_now attempt reported q.busy_window now statuses st p (q.objects r) known still
                found kind recent in
            (early, held ∙ spot)),
    )

-- What a WebSocket that waits for a spot gets in a round: a spot to run on, its place among the requests of its session, and never more spots than allowed; or nothing, if there is no room.
abbrev pub Gets : EndpointQueue → ℕ → Option EndpointQueue → Type 0
Gets q r none = (spot_key q (q.objects r) ≡ none) × (q.max_spots ≤ length q.spots)
Gets q r (some p) =
    ((p.objects r).inflight ≡ (q.objects r).inflight + 1)
    × (length p.spots ≤ p.max_spots)
    × (spot_key p (p.objects r) ≢ none)

try_hold-shared :
    (now : ℕ) (q : EndpointQueue) (r : ℕ) (spot : Key)
    → length q.spots ≤ q.max_spots
    → spot_key q (q.objects r) ≡ some spot
    → Gets q r (try_hold now q r (some spot))
unfolding try_hold spot_key shared_spot
try_hold-shared now q r spot bound found = (ground arith, bound, λ h. ground (arith, found, h))

own_spot : (q : EndpointQueue) (s : Session) → has s.key q.spots ≡ true → spot_key q s ≢ none
unfolding spot_key
own_spot q s own h = ground (arith, own, h)

try_hold-free :
    (now : ℕ) (q : EndpointQueue) (r : ℕ)
    → length q.spots ≤ q.max_spots
    → spot_key q (q.objects r) ≡ none
    → Gets q r (try_hold now q r none)
unfolding try_hold
try_hold-free now q r bound missing = elim (Bool-cases (ltb (length q.spots) q.max_spots)) [
  | inl room ↦ simp room (
    ground arith,
    ground (arith, room, length-insert (q.objects r).key now q.spots),
    own_spot _ _ (
        ground (
          arith,
          has-insert (q.objects r).key (q.objects r).key now q.spots,
          beq_refl (q.objects r).key,
        )),
  )
  | inr full ↦ simp full (missing, ground (arith, full))
]

-- A WebSocket that waits gets a spot in a round exactly when its session has one to run on, its own or the one it shares, or there is room for one more. Then it counts as a request of its session, and there are no more spots than allowed.
pub try_hold-Gets :
    (now : ℕ) (q : EndpointQueue) (r : ℕ)
    → length q.spots ≤ q.max_spots
    → Gets q r (try_hold now q r (spot_key q (q.objects r)))
try_hold-Gets now q r bound = elim (Option-cases (spot_key q (q.objects r))) [
  | inl missing ↦
      subst (λ (o : Option Key). Gets q r (try_hold now q r o)) (sym missing)
        (try_hold-free now q r bound missing)
  | inr (spot, found) ↦
      subst (λ (o : Option Key). Gets q r (try_hold now q r o)) (sym found)
        (try_hold-shared now q r spot bound found)
]

-- A session that runs on its own spot and has more than the WebSocket that closes: while nothing waits, the spot is given up with the others still in flight.
pub release_ws_spot_strands :
    (now : ℕ) (q : EndpointQueue) (r : ℕ)
    → IsValid q
    → has (q.objects r).key q.spots ≡ true
    → 1 < (q.objects r).inflight
    → q.queue ≡ []
    → let p = release_ws_spot now q r in
      (has (q.objects r).key p.spots ≡ false) × (0 < (p.objects r).inflight)
unfolding release_ws_spot try_promote promote_loop
release_ws_spot_strands now q r v held more empty =
    ground (arith, held, more, empty, has-pop_self (q.objects r).key q.spots v.spots_distinct)
