-- ===== src/Endpoint/Polling.antt =====
-- relay/endpoints.py: the first part of `_queue_manager_tick`, one session at a time: its directory, the
-- spot it shares, and what its client reports about it.
use openai_ipmi_proxy.Prelude.{
  ℕ, String, Bool, not, ◌&&◌, List, [], ◌∷◌, ◌++◌, Option, none, some, if◌then◌else◌, ◌==◌,
  string_eq, pair_eq,
}
use openai_ipmi_proxy.Prelude.Lists.{contains}
use openai_ipmi_proxy.Prelude.Dict.{keys, lookup, insert}
use openai_ipmi_proxy.Prelude.Value.{Value, text, object, Fields, get_field}
use openai_ipmi_proxy.Queue.State.{Session, Status, busy, idle, waiting, retry, EndpointQueue}
use openai_ipmi_proxy.Queue.Admission.{set_session}
use openai_ipmi_proxy.Clients.Detect.{ChildrenKind, no_children, parent_chain}
use openai_ipmi_proxy.Clients.Poller.{StatusPoller, CacheKey, Pending, forget}
use openai_ipmi_proxy.Clients.Sharing.{resolve_shared_spot}

-- The sessions of each directory, in the order in which they come
abbrev pub Directories : Type 0
Directories = List (String × List ℕ)

abbrev pub or_nothing : Option (List ℕ) → List ℕ
or_nothing none = []
or_nothing (some rs) = rs

-- `session.shared_spot_key = …`
unfoldable pub share : ChildrenKind → String → StatusPoller → EndpointQueue → ℕ → EndpointQueue
share parent_chain base p q r =
    let s = q.objects r in
    set_session q r (record s {
      shared_spot_key =
          resolve_shared_spot base s.client p.session_parent q s.session_id
            p.provider.children_depth;
    })
share no_children base p q r =
    let s = q.objects r in set_session q r (record s { shared_spot_key = none })

-- What the loop over the sessions of one client machine threads
abbrev pub PollState : Type 0
PollState = StatusPoller × EndpointQueue × Directories

-- `by_dir.setdefault(directory, []).append(session)`, and the spot
unfoldable pub place : String → String → ℕ → PollState → PollState
unfolding share
place base directory r (p, q, by_dir) = (
  p,
  share p.provider.children_kind base p q r,
  insert directory (or_nothing (lookup directory by_dir) ++ r ∷ []) by_dir,
)

-- The session once its cached directory is looked up; `info` is what `fetch_session_info` returns.
unfoldable pub locate :
    String → Option (String × Option String) → Option String → ℕ → PollState → PollState
unfolding place
locate base info (some directory) r st = place base directory r st
locate base none none r st = st
locate base (some (directory, parent)) none r (p, q, by_dir) =
    let key : CacheKey = (base, (q.objects r).session_id) in
    place base directory r (
      record p {
        session_dir = insert key directory p.session_dir;
        session_parent = insert key parent p.session_parent;
      },
      q,
      by_dir,
    )

unfoldable pub poll_session :
    String → (String → Option (String × Option String)) → ℕ → PollState → PollState
unfolding locate
poll_session base info r (p, q, by_dir) =
    let session_id = (q.objects r).session_id in
    locate base (info session_id) (lookup (base, session_id) p.session_dir) r (p, q, by_dir)

-- The types of status that the code takes over
unfoldable pub status_of : Option Value → Option Status
status_of (some (text s)) =
    if s == "busy"
    then some busy
    else if s == "idle"
    then some idle
    else if s == "retry"
    then some retry
    else none
status_of _ = none

-- `f"attempt {st.get('attempt', '?')}"` is a parameter of `retry_detail`.
abbrev pub detail_of : Status → String → String
detail_of retry attempt = attempt
detail_of _ attempt = ""

abbrev pub write_status : ℕ → Status → String → Session → Session
write_status reported status detail s = record s {
  client_status = some status;
  client_status_detail = detail;
  client_status_at = reported;
}

unfoldable pub take_status :
    (Option Value → String) → ℕ → Fields → Option Status → Session → Session
take_status attempt reported st none s = s
take_status attempt reported st (some status) s =
    write_status reported status (detail_of status (attempt (get_field "attempt" st))) s

-- The session in a fresh status map, by what the map has for it
unfoldable pub take_report : (Option Value → String) → ℕ → Option Value → Session → Session
unfolding take_status status_of
take_report attempt reported (some (object st)) s =
    take_status attempt reported st (status_of (get_field "type" st)) s
take_report attempt reported _ s = write_status reported idle "absent from status map (idle)" s

-- `pending.get(session.session_id) if pending is not None else None`
abbrev pub pending_reason : Option Pending → String → Option String
pending_reason none session_id = none
pending_reason (some pending) session_id = lookup session_id pending

unfoldable pub take_answers :
    (Option Value → String) → ℕ → Option Fields → Option String → Session → Session
unfolding take_report
take_answers attempt reported statuses (some reason) s = write_status reported waiting reason s
take_answers attempt reported none none s = s
take_answers attempt reported (some statuses) none s =
    take_report attempt reported (get_field s.session_id statuses) s

-- The loop over the sessions of one directory, on the answers of its client: `data` and `pending`
unfoldable pub report_session :
    (Option Value → String) → ℕ → Option Fields → Option Pending → Session → Session
unfolding take_answers
report_session attempt reported statuses pending s =
    take_answers attempt reported statuses (pending_reason pending s.session_id) s

unfoldable pub report_directory :
    (Option Value → String)
    → ℕ
    → Option Fields
    → Option Pending
    → List ℕ
    → EndpointQueue
    → EndpointQueue
unfolding report_session
report_directory attempt reported statuses pending [] q = q
report_directory attempt reported statuses pending (r ∷ rs) q =
    report_directory attempt reported statuses pending rs
      (set_session q r (report_session attempt reported statuses pending (q.objects r)))

-- The cache entries of a machine whose session is gone
unfoldable pub is_dead : String → List String → CacheKey → Bool
is_dead base live (of, session_id) = of == base && not (contains live session_id)

unfoldable pub forget_dead : String → List String → List CacheKey → StatusPoller → StatusPoller
unfolding forget is_dead
forget_dead base live [] p = p
forget_dead base live (key ∷ ks) p =
    forget_dead base live ks (if is_dead base live key then forget p key.0 key.1 else p)

-- `for key in [k for k in poller.session_dir if …]: poller.forget(…)`
unfoldable pub forget_gone : String → List String → StatusPoller → StatusPoller
unfolding forget_dead
forget_gone base live p = forget_dead base live (keys p.session_dir) p
