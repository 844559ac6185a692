-- ===== src/Endpoint/Freed.antt =====
-- relay/queue.py and relay/endpoints.py: how a step of `tick` takes a spot from a session, and what the session is like
-- after a poll.
use openai_ipmi_proxy.Prelude.{
  ℕ, ◌+◌, ◌≤◌, ◌<◌, ◌≡◌, ◌≢◌, refl, ap, ◌∙◌, subst, sym, String, true, false, [], ◌∷◌, Option, none,
  some, arith, string_eq, pair_eq, nat_eq, beq_refl,
}
use openai_ipmi_proxy.Prelude.Lists.{distinct}
use openai_ipmi_proxy.Prelude.Dict.{lookup, keys, has, has-pop_self, lookup-pop_ne}
use openai_ipmi_proxy.Prelude.Value.{Value, text, object, Fields, get_field}
use openai_ipmi_proxy.Queue.State.{Key, Session, waiting, EndpointQueue}
use openai_ipmi_proxy.Queue.Invariant.{IsValid}
use openai_ipmi_proxy.Queue.Admission.{set_session, try_promote}
use openai_ipmi_proxy.Queue.Lifecycle.{
  is_known, status_unreachable_grace, tick_session, expire_session, release_deadline, ReleaseReason,
  TickState, release_spot, drop_spot, refresh_status, current_status, reported_status,
  known_deadline, quiet_deadline, fresh_report, release_reason, waiting_for_input,
}
use openai_ipmi_proxy.Clients.Poller.{Pending}
use openai_ipmi_proxy.Endpoint.Polling.{
  report_session, take_answers, take_report, take_status, status_of,
}

-- Between the two queues the spot under the key is gone, the session has none and is not idle, and the queue promotes once; the reason is what `tick` reports.
abbrev pub GivesUp : EndpointQueue → ℕ → Key → ℕ → ReleaseReason → TickState → Type 0
GivesUp q later key r reason (after, released) =
    (released ≡ (key, reason) ∷ [])
    × ((freed : EndpointQueue) × (after ≡ try_promote later freed)
        × (has key freed.spots ≡ false)
        × ((freed.objects r).spot_held ≡ false)
        × ((freed.objects r).idle_since ≡ none)
        × (freed.queue ≡ q.queue)
        × ((k : Key) → k ≢ key → lookup k freed.spots ≡ lookup k q.spots))

drop_spot-GivesUp :
    (later : ℕ) (q : EndpointQueue) (key : Key) (r : ℕ) (reason : ReleaseReason)
    → distinct (keys q.spots) ≡ true
    → GivesUp q later key r reason (try_promote later (drop_spot q r key), (key, reason) ∷ [])
unfolding drop_spot
drop_spot-GivesUp later q key r reason spots = (
  refl,
  (
    drop_spot q r key,
    refl,
    has-pop_self key q.spots spots,
    ground arith,
    ground arith,
    refl,
    λ k other. lookup-pop_ne key k q.spots (λ same. other (sym same)),
  ),
)

-- What `tick` makes of the session once its status is written
expire_session-due :
    (now later deadline : ℕ) (reason : ReleaseReason) (q : EndpointQueue) (key : Key) (r : ℕ)
    → (q.objects r).spot_held ≡ true
    → release_deadline q (q.objects r) now ≡ some deadline
    → deadline ≤ now
    → release_reason q (q.objects r) now ≡ reason
    → expire_session now later (q, []) key r
      ≡ (try_promote later (drop_spot q r key), (key, reason) ∷ [])
unfolding expire_session release_spot
expire_session-due now later deadline reason q key r spot due passed why =
    ground (arith, spot, due, passed, why)

-- The session as a poll and then the status of `tick` leave it
pub blocked_now :
    (attempt : Option Value → String) (reported now : ℕ) (statuses : Option Fields)
    (pending : Pending) (reason : String) (window : ℕ) (q : EndpointQueue) (s : Session)
    → is_known s ≡ true
    → s.inflight ≡ 0
    → s.idle_since ≡ none
    → lookup s.session_id pending ≡ some reason
    → 0 < reported
    → now < reported + status_unreachable_grace
    → let t =
        refresh_status window (report_session attempt reported statuses (some pending) s) now in
      (release_deadline q t now ≡ some now)
      × (release_reason q t now ≡ waiting_for_input reason)
      × (t.spot_held ≡ s.spot_held)
unfolding report_session take_answers release_deadline refresh_status current_status reported_status
    known_deadline quiet_deadline fresh_report release_reason
blocked_now attempt reported now statuses pending reason window q s known still awake found after
      fresh =
    ground (arith, known, still, awake, found)

-- A session that is written twice, the second time from what was there
written_twice :
    (q : EndpointQueue) (r : ℕ) (s : Session) (f : Session → Session)
    → (set_session (set_session q r s) r (f ((set_session q r s).objects r))).objects r ≡ f s
written_twice q r s f = rw (beq_refl r) refl

-- A step of `tick` after a poll wrote `s`, which is then due
pub tick_session-GivesUp :
    (now later : ℕ) (reason : ReleaseReason) (q : EndpointQueue) (key : Key) (r : ℕ) (s : Session)
    → IsValid q
    → ((p : EndpointQueue)
        → let t = refresh_status q.busy_window s now in
          (release_deadline p t now ≡ some now)
          × (release_reason p t now ≡ reason)
          × (t.spot_held ≡ true))
    → GivesUp q later key r reason (tick_session now later (set_session q r s, []) key r)
unfolding tick_session
tick_session-GivesUp now later reason q key r s v facts =
    let polled = set_session q r s in
    let t = set_session polled r (refresh_status q.busy_window (polled.objects r) now) in
    let written : t.objects r ≡ refresh_status q.busy_window s now =
      written_twice q r s (λ x. refresh_status q.busy_window x now) in
    let (due, why, held) = facts t in
    subst (GivesUp q later key r reason)
      (sym (
        expire_session-due now later now reason t key r
          (ap (λ (x : Session). x.spot_held) written ∙ held)
          (ap (λ (x : Session). release_deadline t x now) written ∙ due) (omega arith)
          (ap (λ (x : Session). release_reason t x now) written ∙ why)))
      (drop_spot-GivesUp later t key r reason v.spots_distinct)

-- The same, when nothing is due
pub tick_session-keeps :
    (now later : ℕ) (q : EndpointQueue) (key : Key) (r : ℕ) (s : Session)
    → ((p : EndpointQueue)
        → let t = refresh_status q.busy_window s now in
          (release_deadline p t now ≡ none) × (t.spot_held ≡ true))
    → let (after, released) = tick_session now later (set_session q r s, []) key r in
      (released ≡ []) × (after.spots ≡ q.spots) × ((after.objects r).spot_held ≡ true)
unfolding tick_session expire_session
tick_session-keeps now later q key r s facts =
    let polled = set_session q r s in
    let t = set_session polled r (refresh_status q.busy_window (polled.objects r) now) in
    let written : t.objects r ≡ refresh_status q.busy_window s now =
      written_twice q r s (λ x. refresh_status q.busy_window x now) in
    let held : (t.objects r).spot_held ≡ true =
      ap (λ (x : Session). x.spot_held) written ∙ (facts t).1 in
    let early : release_deadline t (t.objects r) now ≡ none =
      ap (λ (x : Session). release_deadline t x now) written ∙ (facts t).0 in
    ground (arith, held, early)

-- The session of which an earlier poll said that it waits
pub still_blocked :
    (window now : ℕ) (q : EndpointQueue) (s : Session)
    → is_known s ≡ true
    → s.inflight ≡ 0
    → s.idle_since ≡ none
    → s.client_status ≡ some waiting
    → 0 < s.client_status_at
    → now < s.client_status_at + status_unreachable_grace
    → let t = refresh_status window s now in
      (release_deadline q t now ≡ some now)
      × (release_reason q t now ≡ waiting_for_input s.client_status_detail)
      × (t.spot_held ≡ s.spot_held)
unfolding release_deadline refresh_status current_status reported_status known_deadline
    quiet_deadline fresh_report release_reason
still_blocked window now q s known still awake waits after fresh =
    ground (arith, known, still, awake, waits)

-- The session that the status map reports busy
pub busy_now :
    (attempt : Option Value → String) (reported window now : ℕ) (statuses st : Fields)
    (q : EndpointQueue) (s : Session)
    → is_known s ≡ true
    → s.inflight ≡ 0
    → get_field s.session_id statuses ≡ some (object st)
    → get_field "type" st ≡ some (text "busy")
    → now < reported + status_unreachable_grace
    → let t = refresh_status window (report_session attempt reported (some statuses) none s) now in
      (release_deadline q t now ≡ none) × (t.spot_held ≡ s.spot_held)
unfolding report_session take_answers take_report take_status status_of release_deadline
    refresh_status current_status reported_status known_deadline quiet_deadline
busy_now attempt reported window now statuses st q s known still found kind fresh =
    ground (arith, known, still, found, kind)
