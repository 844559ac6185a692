-- ===== src/Tests/Managers.antt =====
-- relay/endpoints.py: a tick of the queue manager, and a WebSocket that is held.
use openai_ipmi_proxy.Prelude.{true, false, List, [], ◌∷◌, none, some}
use openai_ipmi_proxy.Prelude.Int.{pos}
use openai_ipmi_proxy.Prelude.Value.{end}
use openai_ipmi_proxy.Power.Noop.{NoopBackend, noop_backend}
use openai_ipmi_proxy.Queue.Invariant.{IsValid}
use openai_ipmi_proxy.Clients.Detect.{ClientProvider, parent_chain}
use openai_ipmi_proxy.Clients.Poller.{init as init_poller}
use openai_ipmi_proxy.Endpoint.Readiness.{check_readiness}
use openai_ipmi_proxy.Endpoint.Manager.{Outside, Managed, Clocks, queue_manager_tick}
use openai_ipmi_proxy.Endpoint.Managed.{IsServed, queue_manager_tick-IsServed}
use openai_ipmi_proxy.Endpoint.Tunnel.{
  ReadyRound, Untouched, wait_ws_ready, wait_ws_ready-Untouched,
}
use openai_ipmi_proxy.Tests.Endpoints.{sleeping_endpoint, registered, registered-IsValid}

abbrev opencode : ClientProvider
opencode = record {
  name = "opencode";
  session_headers = "x-opencode-session" ∷ [];
  gated_session_headers = "x-session-id" ∷ [];
  ua_prefix = "opencode/";
  status_path = "/session/status";
  session_path = "/session";
  pending_paths = [];
  children_kind = parent_chain;
  children_depth = 10;
}

-- Every session is in one directory, whose status map is empty.
abbrev answers : Outside
answers = record {
  port = λ client. pos 4_096;
  info = λ base session. some ("/work", none);
  statuses = λ base directory. some end;
  pending = λ base directory. none;
  meanwhile = λ base key q. q;
  polled_at = λ base. 60_000;
  reported_at = λ base directory. 60_050;
}

abbrev clocks : Clocks
clocks = record { released = λ r. 60_100; wake_at = 60_200; promoted = 60_300; uuid = "cycle-1" }

abbrev managed : Managed NoopBackend
managed = record {
  catch_all = true;
  expiry = 300_000;
  endpoint = record sleeping_endpoint { queue = registered };
  pollers = ("opencode", init_poller opencode 5_000) ∷ [];
  unknown_tracker = [];
}

queue_manager_tick-IsServed_example :
    let q =
      (queue_manager_tick noop_backend
        (λ attempt. "attempt")
        answers
        60_000
        clocks
        (λ e. e)
        (λ e. e)
        58_000
        managed).0.endpoint.queue in
    IsValid q × IsServed q
queue_manager_tick-IsServed_example =
    queue_manager_tick-IsServed noop_backend (λ e. e) (λ e. e) (λ e v. v) (λ e v. v)
      (λ attempt. "attempt") answers 60_000 clocks 58_000 managed (λ base key q v. v)
      registered-IsValid

abbrev rounds : List (ReadyRound NoopBackend)
rounds =
    record { others = λ e. e; gone = false; now = 1_000 }
    ∷ record {
      others = λ e. (check_readiness (some 200) 1_000 1_001 2_000 e).1;
      gone = false;
      now = 2_000;
    }
    ∷ []

wait_ws_ready-Untouched_example :
    Untouched rounds sleeping_endpoint
      (wait_ws_ready (some (pos 60_000)) 1_000 rounds sleeping_endpoint).1
wait_ws_ready-Untouched_example =
    wait_ws_ready-Untouched (some (pos 60_000)) 1_000 rounds sleeping_endpoint
