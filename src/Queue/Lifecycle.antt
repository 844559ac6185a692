-- ===== src/Queue/Lifecycle.antt =====
-- relay/queue.py: statuses, the deadline of a spot, its release, and `tick`.
use openai_ipmi_proxy.Prelude.{
  ℕ, ◌+◌, String, Bool, true, false, not, ◌&&◌, ◌||◌, Option, none, some, List, [], ◌∷◌, ◌++◌, ltb,
  leb, if◌then◌else◌, ◌==◌, nat_eq, string_eq, pair_eq,
}
use Prim.Native.Nat.{max}
use openai_ipmi_proxy.Prelude.Dict.{lookup, pop}
use openai_ipmi_proxy.Prelude.Heap.{update}
use openai_ipmi_proxy.Queue.State.{Key, Status, busy, idle, waiting, Session, EndpointQueue}
use openai_ipmi_proxy.Queue.Admission.{set_session, try_promote}

-- `STATUS_UNREACHABLE_GRACE`: 30 seconds.
abbrev pub status_unreachable_grace : ℕ
status_unreachable_grace = 30_000

-- `now - at < span`, with nothing cut off.
abbrev pub within : ℕ → ℕ → ℕ → Bool
within now at span = ltb now (at + span)

-- `session.client != "unknown"`
abbrev pub is_known : Session → Bool
is_known s = not (s.client == "unknown")

abbrev pub is_quiet : Status → Bool
is_quiet idle = true
is_quiet waiting = true
is_quiet _ = false

abbrev pub is_waiting : Status → Bool
is_waiting waiting = true
is_waiting _ = false

abbrev pub reports_idle : Option Status → Bool
reports_idle (some idle) = true
reports_idle _ = false

-- The report of a known client, while it is within its grace; `_current_status`.
unfoldable pub reported_status : Session → ℕ → Option Status → Status × String
reported_status s now none = (idle, "")
reported_status s now (some st) =
    if within now s.client_status_at status_unreachable_grace
    then (st, s.client_status_detail)
    else (idle, "")

unfoldable pub current_status : ℕ → Session → ℕ → Status × String
unfolding reported_status
current_status busy_window s now =
    if ltb 0 s.inflight
    then (busy, "in-flight request")
    else if is_known s
    then reported_status s now s.client_status
    else if within now s.last_request_at busy_window
    then (busy, "")
    else (idle, "")

-- `_fresh_client_report`
unfoldable pub fresh_report : Session → ℕ → Option Status → Bool
fresh_report s now none = false
fresh_report s now (some st) =
    ltb 0 s.client_status_at && within now s.client_status_at status_unreachable_grace

abbrev pub fresh_client_report : Session → ℕ → Bool
fresh_client_report s now = fresh_report s now s.client_status

-- `_release_deadline` of a known client that is idle or waits for input since `since`
unfoldable pub quiet_deadline : EndpointQueue → Session → ℕ → ℕ → ℕ
unfolding fresh_report
quiet_deadline q s now since =
    if is_waiting s.status
    then if fresh_client_report s now then since else since + q.session_expiry
    else if q.immediate_idle_release
        && reports_idle s.client_status
        && fresh_client_report s now
        && ltb s.last_request_at s.client_status_at
    then since
    else since + q.session_expiry

unfoldable pub known_deadline : EndpointQueue → Session → ℕ → Option ℕ → Option ℕ
unfolding quiet_deadline
known_deadline q s now none = none
known_deadline q s now (some since) =
    if is_quiet s.status then some (quiet_deadline q s now since) else none

unfoldable pub release_deadline : EndpointQueue → Session → ℕ → Option ℕ
release_deadline q s now =
    if ltb 0 s.inflight
    then none
    else if is_known s
    then known_deadline q s now s.idle_since
    else some (s.last_request_at + max q.busy_window q.session_expiry)

-- What `_release_reason` words for the log.
pub data ReleaseReason : Type 0 where
  waiting_for_input : String → ReleaseReason
  client_reports_idle : ReleaseReason
  idle_for : ℕ → ReleaseReason

unfoldable pub release_reason : EndpointQueue → Session → ℕ → ReleaseReason
unfolding fresh_report
release_reason q s now =
    if is_waiting s.status && fresh_client_report s now
    then waiting_for_input s.client_status_detail
    else if reports_idle s.client_status && fresh_client_report s now
    then client_reports_idle
    else idle_for q.session_expiry

-- `waiting == 0 and inflight == 0`
abbrev pub is_dormant : Session → Bool
is_dormant s = s.waiting_count == 0 && s.inflight == 0

-- `_release_spot` up to its call of `_try_promote`
unfoldable pub drop_spot : EndpointQueue → ℕ → Key → EndpointQueue
drop_spot q r key =
    let s = q.objects r in
    record q {
      spots = pop key q.spots;
      objects = update q.objects r (record s { spot_held = false; idle_since = none });
      sessions = if is_dormant s then pop key q.sessions else q.sessions;
    }

unfoldable pub release_spot : ℕ → EndpointQueue → ℕ → Key → EndpointQueue
release_spot now q r key = try_promote now (drop_spot q r key)

-- `release_session`, on what `self.sessions.get(key)` finds
unfoldable pub release_found : ℕ → EndpointQueue → Key → Option ℕ → EndpointQueue × Bool
release_found now q key none = (q, false)
release_found now q key (some r) =
    if (q.objects r).spot_held then (release_spot now q r key, true) else (q, false)

unfoldable pub release_session : ℕ → EndpointQueue → String → String → EndpointQueue × Bool
unfolding release_found
release_session now q client session_id =
    let key : Key = (client, session_id) in release_found now q key (lookup key q.sessions)

-- The status fields that `tick` writes.
abbrev pub since_when : ℕ → Option ℕ → Option ℕ
since_when now none = some now
since_when now (some t) = some t

unfoldable pub refresh_status : ℕ → Session → ℕ → Session
refresh_status busy_window s now =
    let (status, detail) = current_status busy_window s now in
    record s {
      status = status;
      status_detail = detail;
      idle_since = if is_quiet status then since_when now s.idle_since else none;
    }

-- `deadline is not None and now >= deadline`
abbrev pub is_due : ℕ → Option ℕ → Bool
is_due now none = false
is_due now (some deadline) = leb deadline now

-- What `tick` threads: the queue, and the spots released so far.
abbrev pub TickState : Type 0
TickState = EndpointQueue × List (Key × ReleaseReason)

-- The body of the loop of `tick` after the status is written. `later` is the clock that
-- `_try_promote` reads.
unfoldable pub expire_session : ℕ → ℕ → TickState → Key → ℕ → TickState
expire_session now later (q, released) key r =
    let s = q.objects r in
    if s.spot_held
    then if is_due now (release_deadline q s now)
      then (release_spot later q r key, released ++ (key, release_reason q s now) ∷ [])
      else (q, released)
    else if is_dormant s
    then (record q { sessions = pop key q.sessions }, released)
    else (q, released)

unfoldable pub tick_session : ℕ → ℕ → TickState → Key → ℕ → TickState
tick_session now later (q, released) key r =
    expire_session now later
      (set_session q r (refresh_status q.busy_window (q.objects r) now), released) key r

-- The loop over `list(self.sessions.items())`, a copy. `clock r` is the time at which a promotion
-- after the release of session `r` starts.
unfoldable pub tick_loop : ℕ → (ℕ → ℕ) → List (Key × ℕ) → TickState → TickState
tick_loop now clock [] st = st
tick_loop now clock ((key, r) ∷ rest) st =
    tick_loop now clock rest (tick_session now (clock r) st key r)

unfoldable pub tick : ℕ → (ℕ → ℕ) → EndpointQueue → TickState
tick now clock q = tick_loop now clock q.sessions (q, [])

-- `bool(self.queue) or bool(self.spots)`
abbrev pub is_nonempty {ℓ} : {A : Type ℓ} → List A → Bool
is_nonempty [] = false
is_nonempty (x ∷ xs) = true

unfoldable pub has_activity : EndpointQueue → Bool
has_activity q = is_nonempty q.queue || is_nonempty q.spots
