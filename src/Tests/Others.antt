-- ===== src/Tests/Others.antt =====
-- relay/clients.py, relay/store.py and the rest of relay/endpoints.py and relay/queue.py.
use openai_ipmi_proxy.Prelude.{
  ◌≡◌, inl, ◌↔◌, ◌≤◌, refl, String, true, false, List, [], ◌∷◌, Option, none, some, arith,
  string_eq, pair_eq, ◌==◌,
}
use openai_ipmi_proxy.Prelude.Int.{pos, negsuc}
use openai_ipmi_proxy.Prelude.Lists.{length, distinct, contains, any}
use openai_ipmi_proxy.Prelude.Dict.{keys, lookup, insert}
use openai_ipmi_proxy.Queue.State.{EndpointQueue, new_session, init as init_queue}
use openai_ipmi_proxy.Clients.Detect.{
  ClientProvider, parent_chain, Headers, detect_client, detect_loop, identifies, lower_into,
}
use openai_ipmi_proxy.Clients.Poller.{CacheKey}
use openai_ipmi_proxy.Clients.Poller.{StatusPoller, fetch_pending, init as init_poller}
use openai_ipmi_proxy.Clients.Blocked.{Complete, fetch_pending-Complete}
use openai_ipmi_proxy.Power.Bmc.{Response}
use openai_ipmi_proxy.Prelude.Tests.{if◌then◌else◌}
use openai_ipmi_proxy.Prelude.Value.{array, nil, cons, object, field, end, text}
use openai_ipmi_proxy.Clients.Sharing.{resolve_shared_spot, Finds}
use openai_ipmi_proxy.Clients.Ancestors.{resolve_shared_spot-Finds}
use openai_ipmi_proxy.Identity.{resolve_session_id, resolve_session_id_ws, resolve_session_id_same}
use openai_ipmi_proxy.Routing.{route, absolute, Answers, route-Answers}
use openai_ipmi_proxy.Store.Buffer.{
  Event, request, flush, other_write, committed, db_failure, RequestRecord, accounted, staged,
  request_buffer_max, init, run, run-accounted,
}
use openai_ipmi_proxy.Transport.Http.{
  forward_request, forward_request_once, Forwards, answered, chunk, read_timeout, StreamEvent,
}
use openai_ipmi_proxy.Tracker.{Entries, record_request}

abbrev opencode : ClientProvider
opencode = record {
  name = "opencode";
  session_headers = "x-opencode-session" ∷ [];
  gated_session_headers = "x-session-id" ∷ [];
  ua_prefix = "opencode/";
  status_path = "/session/status";
  session_path = "/session";
  pending_paths = [];
  children_kind = parent_chain;
  children_depth = 10;
}

abbrev headers : Headers
headers = ("user-agent", "curl") ∷ ("x-opencode-session", "ses_1") ∷ []

-- The headers of the examples are lower case already.
abbrev same_case : String → String
same_case s = s

resolve_session_id_same_example :
    resolve_session_id same_case (opencode ∷ []) [] headers "10.0.0.1" none ("user" ∷ [])
    ≡ resolve_session_id_ws same_case (opencode ∷ []) [] headers "10.0.0.1" []
unfolding detect_client detect_loop identifies lower_into any lookup insert
resolve_session_id_same_example =
    resolve_session_id_same same_case (opencode ∷ []) [] headers "10.0.0.1" none ("user" ∷ []) []
      (inl (λ h. ground (arith, h)))

route-Answers_example :
    Answers
      (λ p. p)
      (absolute "v1/chat")
      ("/" ∷ "/v1" ∷ "/v2" ∷ [])
      (route (λ p. p) "v1/chat" ("/" ∷ "/v1" ∷ "/v2" ∷ []))
route-Answers_example = route-Answers (λ p. p) "v1/chat" ("/" ∷ "/v1" ∷ "/v2" ∷ [])

-- The parent of s2 is s1, and that of s1 is s2.
abbrev parents : List (CacheKey × Option String)
parents = (("http://c", "s2"), some "s1") ∷ (("http://c", "s1"), some "s2") ∷ []

abbrev family_queue : EndpointQueue
family_queue = record (init_queue (pos 1) (negsuc 0) 120_000 300_000 false true) {
  objects = λ r. new_session ("opencode", "s1") "chat" "10.0.0.2" "opencode/1.0" 1_000;
  sessions = (("opencode", "s1"), 0) ∷ [];
  spots = (("opencode", "s1"), 1_000) ∷ [];
}

resolve_shared_spot-Finds_example :
    (resolve_shared_spot "http://c" "opencode" parents family_queue "s2" 10
      ≡ some ("opencode", "s1"))
    ↔ Finds "http://c" "opencode" parents family_queue 10 "s2" ("s2" ∷ []) ("opencode", "s1")
resolve_shared_spot-Finds_example =
    resolve_shared_spot-Finds "http://c" "opencode" parents family_queue "s2" 10 ("opencode", "s1")

abbrev one_request : RequestRecord
one_request = record {
  ts = 1;
  server = "gpu";
  endpoint = "chat";
  client = "opencode";
  session_id = "s1";
  wait_seconds = 0;
  active_seconds = 2;
  status_code = some 200;
  request_bytes = 10;
  response_bytes = 20;
}

abbrev history : List Event
history =
    request one_request
    ∷ flush db_failure
    ∷ request one_request
    ∷ flush committed
    ∷ other_write db_failure
    ∷ request one_request
    ∷ []

run-accounted_example :
    (accounted (run history init) ≡ staged history)
    × (length (run history init).request_buffer ≤ request_buffer_max)
run-accounted_example = run-accounted history (tt, (tt, (tt, (tt, (tt, (tt, tt))))))

abbrev tracked_entries : Entries
tracked_entries = record_request "10.0.0.1" "curl" "GET" "/x" "http://gpu/x" 1_000 []

tracked_distinct : distinct (keys tracked_entries) ≡ true
unfolding record_request insert lookup distinct contains
tracked_distinct = refl

-- Two bytes, then silence
abbrev stalled : List StreamEvent
stalled = chunk (104 ∷ 105 ∷ []) ∷ read_timeout ∷ []

forward_request_once_example :
    let (answer, calls) = forward_request 10 250 (answered 200 stalled true) in
    Forwards 10 250 (answered 200 stalled true) answer calls
forward_request_once_example = forward_request_once 10 250 (answered 200 stalled true)

-- The permissions list one session, the questions none.
abbrev asking : String → Option Response
asking path =
    if path == "/permission"
    then some (record {
      status_code = 200;
      json = some (array (cons (object (field "sessionID" (text "ses_1") end)) nil));
    })
    else some (record { status_code = 200; json = some (array nil) })

abbrev poller : StatusPoller
poller =
    init_poller
      (record opencode {
        pending_paths = ("/permission", "permission") ∷ ("/question", "question") ∷ [];
      })
      5_000

fetch_pending-Complete_example :
    Complete asking poller.provider.pending_paths [] (fetch_pending asking poller)
fetch_pending-Complete_example = fetch_pending-Complete asking poller
