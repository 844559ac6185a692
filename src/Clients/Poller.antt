-- ===== src/Clients/Poller.antt =====
-- relay/clients.py: `StatusPoller`, its caches and what it makes of the answers of a client.
use openai_ipmi_proxy.Prelude.{
  ℕ, ◌+◌, String, Bool, List, [], ◌∷◌, Option, none, some, if◌then◌else◌, ◌==◌, string_eq, pair_eq,
  nat_eq, leb,
}
use openai_ipmi_proxy.Prelude.Dict.{lookup, insert, pop}
use openai_ipmi_proxy.Prelude.Text.{is_nonempty}
use openai_ipmi_proxy.Prelude.Value.{
  Value, text, array, object, Fields, Items, nil, cons, get_field,
}
use openai_ipmi_proxy.Power.Bmc.{Response}
use openai_ipmi_proxy.Clients.Detect.{ClientProvider}

-- `(base, session_id)`
abbrev pub CacheKey : Type 0
CacheKey = String × String

-- The state of the poller. What its calls get from the network are arguments of the operations.
pub record StatusPoller : Type 0 where
  pub provider : ClientProvider
  pub poll_interval : ℕ
  pub last_poll : List (String × ℕ)
  pub session_dir : List (CacheKey × String)
  pub session_parent : List (CacheKey × Option String)

unfoldable pub init : ClientProvider → ℕ → StatusPoller
init provider poll_interval = record {
  provider = provider;
  poll_interval = poll_interval;
  last_poll = [];
  session_dir = [];
  session_parent = [];
}

abbrev pub or_zero : Option ℕ → ℕ
or_zero none = 0
or_zero (some t) = t

-- `now - self.last_poll.get(base, 0.0) >= self.poll_interval`
unfoldable pub due : StatusPoller → String → ℕ → Bool
due p base now = leb (or_zero (lookup base p.last_poll) + p.poll_interval) now

-- `poller.last_poll[base] = time.monotonic()`
unfoldable pub stamp : StatusPoller → String → ℕ → StatusPoller
stamp p base now = record p { last_poll = insert base now p.last_poll }

unfoldable pub forget : StatusPoller → String → String → StatusPoller
forget p base session_id = record p {
  session_dir = pop (base, session_id) p.session_dir;
  session_parent = pop (base, session_id) p.session_parent;
}

-- `parent if isinstance(parent, str) and parent else None`
abbrev pub parent_of : Option Value → Option String
parent_of (some (text s)) = if is_nonempty s then some s else none
parent_of _ = none

-- The directory must be a text that is not empty.
unfoldable pub info_of : Option Value → Fields → Option (String × Option String)
info_of (some (text directory)) fields =
    if is_nonempty directory
    then some (directory, parent_of (get_field "parentID" fields))
    else none
info_of _ fields = none

unfoldable pub info_of_json : Option Value → Option (String × Option String)
unfolding info_of
info_of_json (some (object fields)) = info_of (get_field "directory" fields) fields
info_of_json _ = none

-- `fetch_session_info`, `fetch_statuses`: no response is an exception of the HTTP client.
unfoldable pub fetch_session_info : Option Response → Option (String × Option String)
unfolding info_of_json
fetch_session_info none = none
fetch_session_info (some r) = if r.status_code == 200 then info_of_json r.json else none

unfoldable pub statuses_of_json : Option Value → Option Fields
statuses_of_json (some (object fields)) = some fields
statuses_of_json _ = none

unfoldable pub fetch_statuses : Option Response → Option Fields
unfolding statuses_of_json
fetch_statuses none = none
fetch_statuses (some r) = if r.status_code == 200 then statuses_of_json r.json else none

abbrev pub Pending : Type 0
Pending = List (String × String)

-- `pending[item["sessionID"]] = kind`, for an item that has a session
unfoldable pub add_pending : String → Option Value → Pending → Pending
add_pending kind (some (text session_id)) pending = insert session_id kind pending
add_pending kind _ pending = pending

unfoldable pub add_item : String → Value → Pending → Pending
unfolding add_pending
add_item kind (object fields) pending = add_pending kind (get_field "sessionID" fields) pending
add_item kind _ pending = pending

unfoldable pub add_items : String → Items → Pending → Pending
unfolding add_item
add_items kind nil pending = pending
add_items kind (cons item items) pending = add_items kind items (add_item kind item pending)

unfoldable pub pending_of_json : String → Option Value → Pending → Option Pending
unfolding add_items
pending_of_json kind (some (array items)) pending = some (add_items kind items pending)
pending_of_json kind _ pending = none

unfoldable pub pending_of_response : String → Option Response → Pending → Option Pending
unfolding pending_of_json
pending_of_response kind none pending = none
pending_of_response kind (some r) pending =
    if r.status_code == 200 then pending_of_json kind r.json pending else none

-- The loop of `fetch_pending`; `network path` is the answer to the call at that path.
unfoldable pub pending_loop :
    (String → Option Response) → List (String × String) → Pending → Option Pending
unfolding pending_of_response
pending_loop network [] pending = some pending
pending_loop network ((path, kind) ∷ paths) pending =
    elim (pending_of_response kind (network path) pending) [
      | none ↦ none
      | some more ↦ pending_loop network paths more
    ]

unfoldable pub fetch_pending : (String → Option Response) → StatusPoller → Option Pending
unfolding pending_loop
fetch_pending network p = pending_loop network p.provider.pending_paths []
