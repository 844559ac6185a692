-- ===== src/Queue/State.antt =====
-- relay/queue.py: `Session`, `QueueEntry` and the fields of `EndpointQueue`.
-- A `Session` is shared by the dictionary `sessions` and by the entries that wait, so sessions and
-- entries are objects on a heap, named by references. Times are milliseconds of the monotonic clock.
use openai_ipmi_proxy.Prelude.{ℕ, zero, suc, String, Bool, false, Option, none, List, []}
use openai_ipmi_proxy.Prelude.Int.{ℤ, pos, negsuc}

-- `(client, session_id)`
abbrev pub Key : Type 0
Key = String × String

-- The texts that `status` and `client_status` hold.
pub data Status : Type 0 where
  busy idle waiting retry : Status

pub record Session : Type 0 where
  pub key : Key
  pub client : String
  pub session_id : String
  pub api : String
  pub client_ip : String
  pub user_agent : String
  pub created_at : ℕ
  pub last_request_at : ℕ
  pub last_path : String
  pub status : Status
  pub status_detail : String
  pub inflight : ℕ
  pub waiting_count : ℕ
  pub spot_held : Bool
  pub spot_acquired_at : ℕ
  pub shared_spot_key : Option Key
  pub idle_since : Option ℕ
  pub client_status : Option Status
  pub client_status_detail : String
  pub client_status_at : ℕ

pub record QueueEntry : Type 0 where
  pub session : ℕ
  pub path : String
  pub body : List ℕ
  pub request : ℕ
  pub enqueued_at : ℕ
  pub go : Bool
  pub done : Bool

pub record EndpointQueue : Type 0 where
  pub max_spots : ℕ
  pub max_inflight_per_session : ℤ
  pub busy_window : ℕ
  pub session_expiry : ℕ
  pub atomic_requests : Bool
  pub immediate_idle_release : Bool
  pub inflight_total : ℕ
  pub sessions : List (Key × ℕ)
  pub spots : List (Key × ℕ)
  pub queue : List ℕ
  pub ready : Bool
  pub objects : ℕ → Session
  pub next_object : ℕ
  pub entries : ℕ → QueueEntry
  pub next_entry : ℕ

-- `max(1, max_spots)`
abbrev pub at_least_one : ℤ → ℕ
at_least_one (pos zero) = 1
at_least_one (pos (suc n)) = suc n
at_least_one (negsuc n) = 1

-- `Session(key, client, session_id, api, client_ip, user_agent, created_at, last_request_at)`, the
-- other fields at their defaults.
unfoldable pub new_session : Key → String → String → String → ℕ → Session
new_session key api client_ip user_agent now = record {
  key = key;
  client = key.0;
  session_id = key.1;
  api = api;
  client_ip = client_ip;
  user_agent = user_agent;
  created_at = now;
  last_request_at = now;
  last_path = "";
  status = busy;
  status_detail = "";
  inflight = 0;
  waiting_count = 0;
  spot_held = false;
  spot_acquired_at = 0;
  shared_spot_key = none;
  idle_since = none;
  client_status = none;
  client_status_detail = "";
  client_status_at = 0;
}

-- `QueueEntry(session, path, body, request, enqueued_at)`
unfoldable pub new_entry : ℕ → String → List ℕ → ℕ → ℕ → QueueEntry
new_entry session path body request enqueued_at = record {
  session = session;
  path = path;
  body = body;
  request = request;
  enqueued_at = enqueued_at;
  go = false;
  done = false;
}

-- `EndpointQueue.__init__`. No object is allocated: the heap's content does not matter.
unfoldable pub init : ℤ → ℤ → ℕ → ℕ → Bool → Bool → EndpointQueue
unfolding new_session new_entry
init max_spots max_inflight busy_window session_expiry atomic immediate = record {
  max_spots = at_least_one max_spots;
  max_inflight_per_session = max_inflight;
  busy_window = busy_window;
  session_expiry = session_expiry;
  atomic_requests = atomic;
  immediate_idle_release = immediate;
  inflight_total = 0;
  sessions = [];
  spots = [];
  queue = [];
  ready = false;
  objects = λ r. new_session ("", "") "" "" "" 0;
  next_object = 0;
  entries = λ r. new_entry 0 "" [] 0 0;
  next_entry = 0;
}
