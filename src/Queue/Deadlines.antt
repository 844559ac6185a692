-- ===== src/Queue/Deadlines.antt =====
-- relay/queue.py: when a spot is surrendered.
use openai_ipmi_proxy.Prelude.{
  ℕ, ◌+◌, ◌≤◌, ◌<◌, ◌≡◌, refl, ◌⊎◌, inl, inr, true, false, Option, none, some, [], ◌∷◌, arith,
  nat_eq, string_eq, pair_eq, Bool-cases, if◌then◌else◌, ltb, leb,
}
use openai_ipmi_proxy.Prelude.Dict.{keys}
use openai_ipmi_proxy.Queue.State.{Key, Session, EndpointQueue}
use Prim.Native.Nat.{max}
use openai_ipmi_proxy.Queue.State.{Status, idle, waiting}
use openai_ipmi_proxy.Queue.Lifecycle.{
  status_unreachable_grace, is_known, is_quiet, current_status, fresh_client_report, known_deadline,
  release_deadline, refresh_status, expire_session, tick_session,
}

-- A known client is past its grace or within it.
abbrev pub IsFresh : Session → ℕ → Type 0
IsFresh s now = fresh_client_report s now ≡ true

-- What a deadline means for a known client: it has been quiet since some time, and the deadline is that time or `session_expiry` later. It is earlier only on a fresh report: one that the session waits for input, or, with `immediate_idle_release`, one that it is idle and that came after its last request.
pub record KnownDeadline (q : EndpointQueue) (s : Session) (now d : ℕ) : Type 0 where
  pub since : ℕ
  pub quiet_since : s.idle_since ≡ some since
  pub quiet : is_quiet s.status ≡ true
  pub not_before : since ≤ d
  pub not_after : d ≤ since + q.session_expiry
  pub early :
      d < since + q.session_expiry
      → IsFresh s now
        × ((s.status ≡ waiting)
            ⊎ ((q.immediate_idle_release ≡ true)
                × (s.client_status ≡ some idle)
                × (s.last_request_at < s.client_status_at)))

known_deadline_lem :
    (q : EndpointQueue) (s : Session) (now d since : ℕ)
    → s.idle_since ≡ some since
    → known_deadline q s now (some since) ≡ some d
    → KnownDeadline q s now d
unfolding known_deadline
known_deadline_lem q s now d since e h = record {
  since = since;
  quiet_since = e;
  quiet = ground arith;
  not_before = ground arith;
  not_after = ground arith;
  early = λ less. ground arith;
}

known_deadline_cases :
    (q : EndpointQueue) (s : Session) (now d : ℕ) (o : Option ℕ)
    → s.idle_since ≡ o
    → known_deadline q s now o ≡ some d
    → KnownDeadline q s now d
known_deadline_cases q s now d none e h = absurd (unfold known_deadline in ground arith)
known_deadline_cases q s now d (some since) e h = known_deadline_lem q s now d since e h

-- A session with a deadline has no request in flight. An unknown client's deadline is its last request plus the longer of the busy window and the expiry; for a known client `KnownDeadline` holds.
pub release_deadline_lem :
    (q : EndpointQueue) (s : Session) (now d : ℕ)
    → release_deadline q s now ≡ some d
    → (s.inflight ≡ 0)
      × (((is_known s ≡ false) × (d ≡ s.last_request_at + max q.busy_window q.session_expiry))
          ⊎ ((is_known s ≡ true) × KnownDeadline q s now d))
unfolding release_deadline
release_deadline_lem q s now d h = elim (Bool-cases (ltb 0 s.inflight)) [
  | inl running ↦ absurd (ground arith)
  | inr still ↦ elim (Bool-cases (is_known s)) [
    | inl known ↦
        (ground arith, inr (known, known_deadline_cases q s now d s.idle_since refl (ground arith)))
    | inr unknown ↦ (ground arith, inl (unknown, ground arith))
  ]
]

-- One step of `tick` for an unknown client with a spot and nothing in flight: the spot is surrendered exactly when the longer of the busy window and the expiry has passed since its last request.
pub tick_session-unknown :
    (now later : ℕ) (q : EndpointQueue) (key : Key) (r : ℕ)
    → is_known (q.objects r) ≡ false
    → (q.objects r).inflight ≡ 0
    → (q.objects r).spot_held ≡ true
    → keys (tick_session now later (q, []) key r).1 ≡ (
        if leb ((q.objects r).last_request_at + max q.busy_window q.session_expiry) now
        then key ∷ []
        else [])
unfolding tick_session expire_session release_deadline refresh_status
tick_session-unknown now later q key r unknown still held = ground arith

-- One step of `tick` for a known client with nothing in flight whose report of "busy" or "retry" is still within its grace releases nothing, however long ago its last request was.
pub tick_session-reporting :
    (now later : ℕ) (q : EndpointQueue) (key : Key) (r : ℕ) (st : Status)
    → is_known (q.objects r) ≡ true
    → (q.objects r).client_status ≡ some st
    → is_quiet st ≡ false
    → now < (q.objects r).client_status_at + status_unreachable_grace
    → (tick_session now later (q, []) key r).1 ≡ []
unfolding tick_session expire_session release_deadline refresh_status current_status known_deadline
tick_session-reporting now later q key r st known report loud fresh = ground arith

-- A known client that stops reporting is not cut off at once: the step of `tick` that finds its report past the grace starts its idle time and, with an expiry above zero, releases nothing.
pub tick_session-silent :
    (now later : ℕ) (q : EndpointQueue) (key : Key) (r : ℕ)
    → is_known (q.objects r) ≡ true
    → (q.objects r).idle_since ≡ none
    → (q.objects r).client_status_at + status_unreachable_grace ≤ now
    → 0 < q.session_expiry
    → (tick_session now later (q, []) key r).1 ≡ []
unfolding tick_session expire_session release_deadline refresh_status current_status known_deadline
tick_session-silent now later q key r known awake past expiry = ground arith
