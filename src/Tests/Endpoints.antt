-- ===== src/Tests/Endpoints.antt =====
-- relay/endpoints.py: an endpoint on a server with the scripted power backend.
use openai_ipmi_proxy.Prelude.{
  ℕ, ◌≡◌, ◌<◌, refl, true, false, [], ◌∷◌, Option, none, some, arith, string_eq, pair_eq, nat_eq,
}
use openai_ipmi_proxy.Prelude.Tests.{pair_beq, Eq}
use openai_ipmi_proxy.Prelude.Int.{pos, negsuc}
use openai_ipmi_proxy.Prelude.Lists.{contains, find, remove, distinct, count}
use openai_ipmi_proxy.Prelude.Dict.{lookup, has, insert}
use openai_ipmi_proxy.Prelude.Value.{text, object, Fields, field, end, get_field}
use openai_ipmi_proxy.Power.Backend.{off}
use openai_ipmi_proxy.Power.Noop.{NoopBackend, noop_backend}
use openai_ipmi_proxy.Server.Runtime.{ServerConfig, init as init_server}
use openai_ipmi_proxy.Queue.State.{
  Key, EndpointQueue, Session, waiting, new_session, new_entry, init,
}
use openai_ipmi_proxy.Queue.Invariant.{IsValid, init-IsValid}
use openai_ipmi_proxy.Queue.Admission.{
  set_session, adopt_session, get_or_create_session, spot_key, enqueue, append_entry, try_promote,
  promote_loop, promote, eligible, may_run, shared_spot, start_request, take_spot, create_entry,
}
use openai_ipmi_proxy.Queue.Lifecycle.{tick_session, waiting_for_input}
use openai_ipmi_proxy.Queue.Wait.{timed_out}
use openai_ipmi_proxy.Queue.Runs.{Reach-init-IsValid, start, after, probed}
use openai_ipmi_proxy.Queue.Validity.Sessions.{get_or_create_session-IsValid}
use openai_ipmi_proxy.Endpoint.Readiness.{EndpointRuntime, Round, check_readiness, endpoint_active}
use openai_ipmi_proxy.Endpoint.Admission.{
  not_ready, forwarded, rejected, probe_if_empty, admit_unqueued, Arrival, register, settle,
}
use openai_ipmi_proxy.Endpoint.Gates.{admit_unqueued_lem, settle-removes, register-IsValid}
use openai_ipmi_proxy.Endpoint.Socket.{release_ws_spot}
use openai_ipmi_proxy.Endpoint.Polling.{report_session}
use openai_ipmi_proxy.Endpoint.Settled.{Settles}
use openai_ipmi_proxy.Endpoint.Freed.{GivesUp}
use openai_ipmi_proxy.Endpoint.Surrender.{
  pending_surrenders, failed_pending_clears, release_ws_spot_strands,
}

abbrev plain_config : ServerConfig
plain_config = record {
  idle_timeout = 600_000;
  shutdown_enabled = true;
  adopt_on_traffic = false;
  power_on_cooldown = 30_000;
  cron = none;
}

abbrev pub empty_endpoint_queue : EndpointQueue
empty_endpoint_queue = init (pos 1) (negsuc 0) 120_000 300_000 false true

abbrev pub sleeping_endpoint : EndpointRuntime NoopBackend
sleeping_endpoint = record {
  healthy_statuses = 200 ∷ [];
  errors_when_not_ready = false;
  queue_timeout = some (pos 60_000);
  queue = empty_endpoint_queue;
  server = init_server plain_config (record { state = off; actions = [] }) 0;
  ready_since = none;
  last_check_at = none;
  active_forwards = 0;
  rows = [];
}

-- The machine comes up between two rounds.
abbrev booting_round : Round noop_backend
booting_round = record {
  others = λ e. e;
  gone = false;
  wake_at = 40_000;
  uuid = "cycle-1";
  now = 40_100;
}

abbrev ready_round : Round noop_backend
ready_round = record {
  others = λ e. (check_readiness (some 200) 1_000 1_001 41_000 e).1;
  gone = false;
  wake_at = 41_000;
  uuid = "cycle-2";
  now = 41_100;
}

admit_unqueued_lem_example :
    let (verdict, e') =
      admit_unqueued noop_backend
        (λ e. e)
        40_000
        (booting_round ∷ ready_round ∷ [])
        sleeping_endpoint in
    let gated = probe_if_empty (λ e. e) sleeping_endpoint in
    (verdict ≡ forwarded → (e'.queue.ready ≡ true) × (endpoint_active e' ≡ true))
    × (gated.queue.ready ≡ false
        → gated.errors_when_not_ready ≡ true
        → (verdict ≡ not_ready) × (e' ≡ gated))
admit_unqueued_lem_example =
    admit_unqueued_lem noop_backend (λ e. e) 40_000 (booting_round ∷ ready_round ∷ [])
      sleeping_endpoint

abbrev arrival : Arrival
arrival = record {
  client = "opencode";
  session_id = "s1";
  api_name = "chat";
  client_ip = "10.0.0.2";
  user_agent = "opencode/1.0";
  path = "/v1/chat";
  body = [];
  request = 7;
}

abbrev found_here : EndpointQueue × ℕ
found_here =
    get_or_create_session empty_endpoint_queue "opencode" "s1" "chat" "10.0.0.2" "opencode/1.0"
      1_000

found_here-IsValid : IsValid found_here.0
found_here-IsValid =
    (get_or_create_session-IsValid empty_endpoint_queue "opencode" "s1" "chat" "10.0.0.2"
      "opencode/1.0" 1_000 (init-IsValid (pos 1) (negsuc 0) 120_000 300_000 false true)).0

abbrev pub registered : EndpointQueue
registered = (register (λ q. q) 1_000 1_001 1_001 arrival empty_endpoint_queue).0

pub registered-IsValid : IsValid registered
unfolding init get_or_create_session adopt_session new_session new_entry lookup insert pair_beq
registered-IsValid =
    register-IsValid (λ q. q) 1_000 1_001 1_001 arrival empty_endpoint_queue found_here-IsValid refl

settle-removes_example :
    let (verdict, left) = settle 61_001 61_001 timed_out 0 registered in
    (verdict ≡ rejected timed_out) × Settles 61_001 61_001 0 registered left
settle-removes_example =
    settle-removes 61_001 61_001 timed_out 0 registered registered-IsValid (λ h. ground (arith, h))

abbrev blocked_session : Session
blocked_session = record (new_session ("opencode", "s1") "chat" "10.0.0.2" "opencode/1.0" 1_000) {
  spot_held = true;
  client_status = some waiting;
  client_status_at = 49_000;
}

abbrev blocked_queue : EndpointQueue
blocked_queue = record empty_endpoint_queue {
  objects = λ r. blocked_session;
  sessions = (("opencode", "s1"), 0) ∷ [];
  spots = (("opencode", "s1"), 1_000) ∷ [];
  next_object = 1;
}

blocked_queue-IsValid : IsValid blocked_queue
unfolding init new_session new_entry distinct count contains lookup has
blocked_queue-IsValid = record {
  spots_bounded = ground arith;
  spots_distinct = refl;
  sessions_distinct = refl;
  queue_distinct = refl;
  waiting_counted = λ r. refl;
  pending = λ e h. ground (arith, h);
  filed = λ k r h.
      let keys_eq : Eq Key = pair_eq in ground (arith, h, keys_eq.agree ("opencode", "s1") k);
  live_tracked = λ r h. ground (arith, h);
  spots_owned = λ k h. ground (arith, h);
  held_spots = λ k r h spot. ground (arith, h);
  fresh_entries = λ e h. ground (arith, h);
  fresh = λ k r h. ground (arith, h);
}

pending_surrenders_example :
    let polled = set_session blocked_queue 0 (
      report_session
        (λ v. "attempt ?")
        50_000
        none
        (some (("s1", "permission") ∷ []))
        (blocked_queue.objects 0)) in
    GivesUp blocked_queue 51_000
      ("opencode", "s1")
      0
      (waiting_for_input "permission")
      (tick_session 51_000 51_000 (polled, []) ("opencode", "s1") 0)
unfolding init new_session new_entry lookup
pending_surrenders_example =
    pending_surrenders (λ v. "attempt ?") 50_000 51_000 51_000 none (("s1", "permission") ∷ [])
      "permission" blocked_queue ("opencode", "s1") 0 blocked_queue-IsValid refl refl refl refl refl
      (omega arith) (omega arith)

abbrev busy_map : Fields
busy_map = field "s1" (object (field "type" (text "busy") end)) end

failed_pending_clears_example :
    let polled = λ (answer : Option Fields).
      set_session blocked_queue 0
        (report_session (λ v. "attempt ?") 50_000 answer none (blocked_queue.objects 0)) in
    let (kept, released) =
      tick_session 51_000 51_000 (polled (some busy_map), []) ("opencode", "s1") 0 in
    GivesUp blocked_queue 51_000
      ("opencode", "s1")
      0
      (waiting_for_input "")
      (tick_session 51_000 51_000 (polled none, []) ("opencode", "s1") 0)
    × ((released ≡ []) × (kept.spots ≡ blocked_queue.spots) × ((kept.objects 0).spot_held ≡ true))
unfolding init new_session new_entry get_field
failed_pending_clears_example =
    failed_pending_clears (λ v. "attempt ?") 50_000 51_000 51_000 busy_map
      (field "type" (text "busy") end) blocked_queue ("opencode", "s1") 0 blocked_queue-IsValid refl
      refl refl refl refl (omega arith) (omega arith) refl refl (omega arith)

-- Two requests of one session run on its spot.
abbrev ready_empty : EndpointQueue
ready_empty = record empty_endpoint_queue { ready = true }

ready_empty-IsValid : IsValid ready_empty
ready_empty-IsValid =
    Reach-init-IsValid (pos 1) (negsuc 0) 120_000 300_000 false true
      (after start (probed empty_endpoint_queue true))

abbrev one_runs : EndpointQueue
one_runs = (register (λ q. q) 1_000 1_001 1_001 arrival ready_empty).0

one_runs-IsValid : IsValid one_runs
unfolding init get_or_create_session adopt_session new_session new_entry lookup insert pair_beq
one_runs-IsValid =
    register-IsValid (λ q. q) 1_000 1_001 1_001 arrival ready_empty
      (get_or_create_session-IsValid ready_empty "opencode" "s1" "chat" "10.0.0.2" "opencode/1.0"
        1_000 ready_empty-IsValid).0
      refl

abbrev two_run : EndpointQueue
two_run = (register (λ q. q) 2_000 2_001 2_001 arrival one_runs).0

two_run-IsValid : IsValid two_run
unfolding init get_or_create_session adopt_session new_session new_entry lookup insert pair_beq
    register create_entry enqueue append_entry try_promote promote_loop promote find remove has
    eligible may_run spot_key shared_spot start_request take_spot contains
two_run-IsValid =
    register-IsValid (λ q. q) 2_000 2_001 2_001 arrival one_runs
      (get_or_create_session-IsValid one_runs "opencode" "s1" "chat" "10.0.0.2" "opencode/1.0" 2_000
        one_runs-IsValid).0
      refl

release_ws_spot_strands_example :
    let p = release_ws_spot 3_000 two_run 0 in
    (has (two_run.objects 0).key p.spots ≡ false) × (0 < (p.objects 0).inflight)
unfolding init get_or_create_session adopt_session new_session new_entry lookup insert pair_beq
    register create_entry enqueue append_entry try_promote promote_loop promote find remove has
    eligible may_run spot_key shared_spot start_request take_spot contains
release_ws_spot_strands_example =
    release_ws_spot_strands 3_000 two_run 0 two_run-IsValid refl (omega arith) refl
