-- ===== src/Endpoint/Manager.antt =====
-- relay/endpoints.py: `_queue_manager_tick` as a whole: the client machines one after another, the pass of the queue, the
-- boot cycle, and the tracker.
use openai_ipmi_proxy.Prelude.{
  ℕ, String, Bool, List, [], ◌∷◌, ◌++◌, map, Option, none, some, if◌then◌else◌, ◌==◌, string_eq,
  pair_eq,
}
use openai_ipmi_proxy.Prelude.Int.{ℤ}
use openai_ipmi_proxy.Prelude.Dict.{lookup, insert, has, values}
use openai_ipmi_proxy.Prelude.Digits.{str}
use openai_ipmi_proxy.Prelude.Text.{concat}
use openai_ipmi_proxy.Prelude.Value.{Value, Fields}
use openai_ipmi_proxy.Power.Backend.{PowerBackend}
use openai_ipmi_proxy.Queue.State.{EndpointQueue}
use openai_ipmi_proxy.Queue.Lifecycle.{tick}
use openai_ipmi_proxy.Clients.Poller.{StatusPoller, Pending, due, stamp}
use openai_ipmi_proxy.Tracker.{Entries, prune}
use openai_ipmi_proxy.Endpoint.Readiness.{EndpointRuntime, manage_waiting}
use openai_ipmi_proxy.Endpoint.Polling.{
  Directories, or_nothing, PollState, poll_session, report_directory, forget_gone,
}

-- `self.pollers`, by the name of the client
abbrev pub Pollers : Type 0
Pollers = List (String × StatusPoller)

-- A client machine: the name of the client, which has one poller, and the base URL
abbrev pub Machine : Type 0
Machine = String × String

-- `bases`: the sessions of each machine
abbrev pub Bases : Type 0
Bases = List (Machine × List ℕ)

-- `base_url`
abbrev pub base_url : ℤ → String → String
base_url port client_ip = concat "http://" (concat client_ip (concat ":" (str port)))

-- What the tick gets from outside, by the base and the session or the directory: the answers of the clients, the readings of the
-- clock, and what the other tasks do to the queue while it waits for an answer. `port` is the port
-- of a client's poller.
pub record Outside : Type 0 where
  pub port : String → ℤ
  pub info : String → String → Option (String × Option String)
  pub statuses : String → String → Option Fields
  pub pending : String → String → Option Pending
  pub meanwhile : String → String → EndpointQueue → EndpointQueue
  pub polled_at : String → ℕ
  pub reported_at : String → String → ℕ

module _ (attempt : Option Value → String) (outside : Outside) where
  -- `bases.setdefault((poller, base), []).append(session)`
  abbrev pub group_found : String → String → ℕ → Bases → Option StatusPoller → Bases
  group_found client ip r bases none = bases
  group_found client ip r bases (some p) =
      let machine : Machine = (client, base_url (outside.port client) ip) in
      insert machine (or_nothing (lookup machine bases) ++ r ∷ []) bases

  -- The loop over the sessions
  unfoldable pub group : Pollers → EndpointQueue → List ℕ → Bases → Bases
  unfolding lookup insert str
  group pollers q [] bases = bases
  group pollers q (r ∷ rs) bases =
      let s = q.objects r in
      group pollers q rs (
        if s.client == "unknown"
        then bases
        else group_found s.client s.client_ip r bases (lookup s.client pollers))

  -- The loop over the sessions of a machine: it waits for an answer where the directory is not cached.
  unfoldable pub poll_sessions : String → List ℕ → PollState → PollState
  unfolding poll_session has
  poll_sessions base [] st = st
  poll_sessions base (r ∷ rs) (p, q, by_dir) =
      let session_id = (q.objects r).session_id in
      let seen =
        if has (base, session_id) p.session_dir then q else outside.meanwhile base session_id q in
      poll_sessions base rs (poll_session base (outside.info base) r (p, seen, by_dir))

  -- `if data is not None or pending is not None: …`
  abbrev pub report_answers :
      ℕ → List ℕ → EndpointQueue → Option Fields → Option Pending → EndpointQueue
  report_answers reported rs q none none = q
  report_answers reported rs q (some statuses) pending =
      report_directory attempt reported (some statuses) pending rs q
  report_answers reported rs q none (some pending) =
      report_directory attempt reported none (some pending) rs q

  -- The loop over the directories of a machine
  unfoldable pub report_directories : String → Directories → EndpointQueue → EndpointQueue
  unfolding report_directory
  report_directories base [] q = q
  report_directories base ((directory, rs) ∷ by_dir) q = report_directories base by_dir (
      report_answers (outside.reported_at base directory) rs (outside.meanwhile base directory q)
        (outside.statuses base directory) (outside.pending base directory))

  -- `{s.session_id for s in sessions}`
  abbrev pub session_ids : EndpointQueue → List ℕ → List String
  session_ids q rs = map (λ r. (q.objects r).session_id) rs

  -- A machine that is due
  unfoldable pub poll_due :
      String → List ℕ → StatusPoller → EndpointQueue → StatusPoller × EndpointQueue
  unfolding poll_sessions report_directories forget_gone stamp
  poll_due base rs p q =
      let (p', q', by_dir) = poll_sessions base rs (stamp p base (outside.polled_at base), q, []) in
      let reported = report_directories base by_dir q' in
      (forget_gone base (session_ids reported rs) p', reported)

  abbrev pub poll_found :
      ℕ → Machine → List ℕ → Pollers → EndpointQueue → Option StatusPoller → Pollers × EndpointQueue
  poll_found now machine rs pollers q none = (pollers, q)
  poll_found now machine rs pollers q (some p) =
      let (p', q') = poll_due machine.1 rs p q in
      if due p machine.1 now then (insert machine.0 p' pollers, q') else (pollers, q)

  -- The loop over the machines
  unfoldable pub poll_machines : ℕ → Bases → Pollers → EndpointQueue → Pollers × EndpointQueue
  unfolding lookup insert due poll_due
  poll_machines now [] pollers q = (pollers, q)
  poll_machines now ((machine, rs) ∷ bases) pollers q =
      let (pollers', q') = poll_found now machine rs pollers q (lookup machine.0 pollers) in
      poll_machines now bases pollers' q'

-- The endpoint with the pollers and the tracker, and what its configuration says of them
pub record Managed (B : Type 0) : Type 0 where
  pub catch_all : Bool
  pub expiry : ℕ
  pub endpoint : EndpointRuntime B
  pub pollers : Pollers
  pub unknown_tracker : Entries

-- The readings of the clock in the second and the third part, and the fresh identifier
pub record Clocks : Type 0 where
  pub released : ℕ → ℕ
  pub wake_at : ℕ
  pub promoted : ℕ
  pub uuid : String

module _ {B : Type 0} (api : PowerBackend B) (attempt : Option Value → String)
    (outside : Outside) where
  -- `_queue_manager_tick`; `probed` is `check_readiness`, with what it gets from outside, and
  -- `meanwhile` what the other tasks do while a wake is awaited.
  unfoldable pub queue_manager_tick :
      ℕ
      → Clocks
      → (EndpointRuntime B → EndpointRuntime B)
      → (EndpointRuntime B → EndpointRuntime B)
      → ℕ
      → Managed B
      → Managed B × ℕ
  unfolding group poll_machines tick manage_waiting prune
  queue_manager_tick now clocks probed meanwhile last_check m =
      let q = m.endpoint.queue in
      let bases = group attempt outside m.pollers q (values q.sessions) [] in
      let (pollers, polled) = poll_machines attempt outside now bases m.pollers q in
      let ticked = (tick now clocks.released polled).0 in
      let (endpoint, check) =
        manage_waiting api now clocks.wake_at clocks.promoted clocks.uuid probed meanwhile
          last_check (record m.endpoint { queue = ticked }) in
      (
        record m {
          endpoint = endpoint;
          pollers = pollers;
          unknown_tracker =
              if m.catch_all then prune now m.expiry m.unknown_tracker else m.unknown_tracker;
        },
        check,
      )
