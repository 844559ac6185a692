-- ===== src/Endpoint/Readiness.antt =====
-- relay/endpoints.py: the state of `EndpointRuntime`, its readiness probe, and the wake of its server.
use openai_ipmi_proxy.Prelude.{
  ℕ, ◌+◌, String, Bool, true, false, ◌||◌, List, [], ◌∷◌, ◌++◌, Option, none, some, if◌then◌else◌,
  leb, ltb, nat_eq,
}
use openai_ipmi_proxy.Prelude.Lists.{contains}
use openai_ipmi_proxy.Queue.State.{EndpointQueue}
use openai_ipmi_proxy.Queue.Admission.{try_promote}
use openai_ipmi_proxy.Queue.Lifecycle.{is_nonempty, has_activity}
use openai_ipmi_proxy.Prelude.Int.{ℤ}
use openai_ipmi_proxy.Queue.Wait.{Outcome, admitted, disconnected, timed_out, is_past, deadline_of}
use openai_ipmi_proxy.Power.Backend.{PowerBackend}
use openai_ipmi_proxy.Server.Runtime.{ServerRuntime, is_on, maybe_power_on, note_service_ready}

-- A call of `set_endpoint_runtime`, by its arguments.
pub record EndpointRow : Type 0 where
  pub ready : Bool
  pub ready_since : Option ℕ
  pub last_check_at : Option ℕ

-- The configuration that the code below reads, and the state. The server comes along, since the
-- endpoint wakes it and reports to it.
pub record EndpointRuntime (B : Type 0) : Type 0 where
  pub healthy_statuses : List ℕ
  pub errors_when_not_ready : Bool
  pub queue_timeout : Option ℤ
  pub queue : EndpointQueue
  pub server : ServerRuntime B
  pub ready_since : Option ℕ
  pub last_check_at : Option ℕ
  pub active_forwards : ℕ
  pub rows : List EndpointRow

-- `response.status_code in rc.healthy_statuses`; no answer is an exception of the HTTP client.
unfoldable pub is_healthy : List ℕ → Option ℕ → Bool
is_healthy statuses none = false
is_healthy statuses (some code) = contains statuses code

module _ {B : Type 0} where
  -- `has_activity`
  unfoldable pub endpoint_active : EndpointRuntime B → Bool
  unfolding has_activity
  endpoint_active e = has_activity e.queue || ltb 0 e.active_forwards

  abbrev pub set_ready : Bool → EndpointRuntime B → EndpointRuntime B
  set_ready ok e = record e { queue = record e.queue { ready = ok } }

  abbrev pub write_row : Bool → EndpointRuntime B → EndpointRuntime B
  write_row ok e = record e {
    rows =
        e.rows
        ++ (record { ready = ok; ready_since = e.ready_since; last_check_at = e.last_check_at })
          ∷ [];
  }

  -- `check_readiness` once the probe has answered: `wall` and `later` are readings of the wall clock,
  -- `now` is the monotonic one of `note_service_ready`.
  unfoldable pub check_readiness :
      Option ℕ → ℕ → ℕ → ℕ → EndpointRuntime B → Bool × EndpointRuntime B
  unfolding is_healthy
  check_readiness probe wall later now e =
      let ok = is_healthy e.healthy_statuses probe in
      let checked = record e { last_check_at = some wall } in
      if ok
      then if e.queue.ready then (true, checked) else (
        true,
        write_row true (
            set_ready true (record checked {
              ready_since = some later;
              server = note_service_ready now e.server;
            })),
      )
      else if e.queue.ready
      then (false, write_row false (set_ready false checked))
      else (false, checked)

module _ {B : Type 0} (api : PowerBackend B) where
  -- `await self.server.maybe_power_on()`
  abbrev pub wake : ℕ → String → EndpointRuntime B → EndpointRuntime B
  wake now uuid e = record e { server = (maybe_power_on api now "request_wake" uuid e.server).1 }

  -- `_ensure_wake`
  unfoldable pub ensure_wake : ℕ → String → EndpointRuntime B → EndpointRuntime B
  ensure_wake now uuid e =
      if e.queue.ready then e else if is_on e.server.power_state then e else wake now uuid e

  -- The wake of `_queue_manager_tick`; `meanwhile` is what the other tasks do while it is awaited.
  unfoldable pub manage_wake :
      ℕ → String → (EndpointRuntime B → EndpointRuntime B) → EndpointRuntime B → EndpointRuntime B
  manage_wake now uuid meanwhile e =
      if e.queue.ready
      then e
      else if is_on e.server.power_state
      then e
      else meanwhile (wake now uuid e)

  -- The third part of `_queue_manager_tick`: the state and the time of the last check. `probed` is
  -- `check_readiness`, with what it gets from outside.
  unfoldable pub manage_waiting :
      ℕ
      → ℕ
      → ℕ
      → String
      → (EndpointRuntime B → EndpointRuntime B)
      → (EndpointRuntime B → EndpointRuntime B)
      → ℕ
      → EndpointRuntime B
      → EndpointRuntime B × ℕ
  unfolding manage_wake
  manage_waiting now wake_at later uuid probed meanwhile last_check e =
      if is_nonempty e.queue.queue
      then (let due : Bool = leb (last_check + 2000) now in
          let checked : EndpointRuntime B = if due then probed e else e in
          let woken = manage_wake wake_at uuid meanwhile checked in
          (
            record woken {
              queue = if woken.queue.ready then try_promote later woken.queue else woken.queue;
            },
            if due then now else last_check,
          ))
      else (e, last_check)

  -- One round of `wait_until_ready`: what the other tasks did before it, and what the calls of the
  -- round return.
  pub record Round : Type 0 where
    pub others : EndpointRuntime B → EndpointRuntime B
    pub gone : Bool
    pub wake_at : ℕ
    pub uuid : String
    pub now : ℕ

  -- `wait_until_ready` from its deadline on, over the rounds that take place: no outcome while it
  -- still holds the request.
  unfoldable pub hold :
      Option ℕ → List Round → EndpointRuntime B → Option Outcome × EndpointRuntime B
  hold deadline [] e = (none, e)
  hold deadline (round ∷ rounds) e =
      let seen = round.others e in
      let woken = ensure_wake round.wake_at round.uuid seen in
      let rest = hold deadline rounds woken in
      if seen.queue.ready
      then (some admitted, seen)
      else if round.gone
      then (some disconnected, woken)
      else if is_past deadline round.now
      then (some timed_out, woken)
      else rest

  unfoldable pub wait_until_ready :
      Option ℤ → ℕ → List Round → EndpointRuntime B → Option Outcome × EndpointRuntime B
  unfolding hold
  wait_until_ready timeout now rounds e = hold (deadline_of timeout now) rounds e
