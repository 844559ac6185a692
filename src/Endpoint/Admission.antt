-- ===== src/Endpoint/Admission.antt =====
-- relay/endpoints.py: the admission of a request, queued or not. A request that is admitted is forwarded;
-- what the other tasks do at an `await` is a function on the state.
use openai_ipmi_proxy.Prelude.{ℕ, ◌+◌, ◌-◌, String, List, Option, none, some, if◌then◌else◌}
use openai_ipmi_proxy.Queue.State.{EndpointQueue}
use openai_ipmi_proxy.Queue.Admission.{
  get_or_create_session, create_entry, enqueue, abandon, release,
}
use openai_ipmi_proxy.Queue.Lifecycle.{is_nonempty}
use openai_ipmi_proxy.Queue.Wait.{Outcome, admitted, disconnected, timed_out}
use openai_ipmi_proxy.Power.Backend.{PowerBackend}
use openai_ipmi_proxy.Endpoint.Readiness.{EndpointRuntime, ensure_wake, Round, wait_until_ready}

-- What becomes of a request: `_not_ready`, `_hold_rejected`, or it is forwarded. `held` is a request
-- that still waits.
pub data Verdict : Type 0 where
  not_ready forwarded held : Verdict
  rejected : Outcome → Verdict

-- `if not self.queue.queue: await self.check_readiness()`
abbrev pub probe_if_empty :
    {B : Type 0} → (EndpointRuntime B → EndpointRuntime B) → EndpointRuntime B → EndpointRuntime B
probe_if_empty probed e = if is_nonempty e.queue.queue then e else probed e

module _ {B : Type 0} (api : PowerBackend B) where
  -- `admit_unqueued` on the outcome of the hold
  unfoldable pub forward_if_admitted :
      Option Outcome × EndpointRuntime B → Verdict × EndpointRuntime B
  forward_if_admitted (none, e) = (held, e)
  forward_if_admitted (some admitted, e) =
      (forwarded, record e { active_forwards = e.active_forwards + 1 })
  forward_if_admitted (some disconnected, e) = (rejected disconnected, e)
  forward_if_admitted (some timed_out, e) = (rejected timed_out, e)

  -- `admit_unqueued` up to the call of `_forward`
  unfoldable pub admit_unqueued :
      (EndpointRuntime B → EndpointRuntime B)
      → ℕ
      → List (Round api)
      → EndpointRuntime B
      → Verdict × EndpointRuntime B
  unfolding forward_if_admitted
  admit_unqueued probed now rounds e =
      let gated = probe_if_empty probed e in
      if gated.queue.ready
      then forward_if_admitted (some admitted, gated)
      else if gated.errors_when_not_ready
      then (not_ready, gated)
      else forward_if_admitted (wait_until_ready api gated.queue_timeout now rounds gated)

  -- `_finish`: `max(0, active_forwards - 1)` is `-` on ℕ.
  unfoldable pub finish_forward : EndpointRuntime B → EndpointRuntime B
  finish_forward e = record e { active_forwards = e.active_forwards - 1 }

  -- `_admit_queued` up to its first look at the session: `none` answers `_not_ready`.
  unfoldable pub gate_queued :
      (EndpointRuntime B → EndpointRuntime B)
      → ℕ
      → String
      → EndpointRuntime B
      → Option (EndpointRuntime B)
  gate_queued probed now uuid e =
      let gated = probe_if_empty probed e in
      if gated.queue.ready
      then some gated
      else if gated.errors_when_not_ready
      then none
      else some (ensure_wake api now uuid gated)

-- What identifies a request to the queue
pub record Arrival : Type 0 where
  pub client : String
  pub session_id : String
  pub api_name : String
  pub client_ip : String
  pub user_agent : String
  pub path : String
  pub body : List ℕ
  pub request : ℕ

-- `_admit_queued` from its look at the session to `enqueue`: the queue and the entry. `others` is what
-- happens to the queue while `upsert_session` is awaited.
unfoldable pub register :
    (EndpointQueue → EndpointQueue) → ℕ → ℕ → ℕ → Arrival → EndpointQueue → EndpointQueue × ℕ
register others now enqueued_at later a q =
    let (found, session) =
      get_or_create_session q a.client a.session_id a.api_name a.client_ip a.user_agent now in
    let (built, entry) = create_entry (others found) session a.path a.body a.request enqueued_at in
    (enqueue later built entry, entry)

-- `_admit_queued` once `wait_for_slot` has returned: a slot that was granted in the same instant is
-- released, an entry that still waits is dropped.
unfoldable pub settle : ℕ → ℕ → Outcome → ℕ → EndpointQueue → Verdict × EndpointQueue
settle now later admitted entry q = (forwarded, q)
settle now later disconnected entry q = (
  rejected disconnected,
  if (q.entries entry).done then release now later q entry else abandon q entry,
)
settle now later timed_out entry q = (
  rejected timed_out,
  if (q.entries entry).done then release now later q entry else abandon q entry,
)
