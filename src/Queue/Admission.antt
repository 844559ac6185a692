-- ===== src/Queue/Admission.antt =====
-- relay/queue.py: how `EndpointQueue` takes requests in, promotes and releases them.
use openai_ipmi_proxy.Prelude.{
  ℕ, zero, suc, ◌+◌, ◌-◌, String, Bool, true, false, ◌&&◌, Option, none, some, List, [], ◌∷◌, ◌++◌,
  ltb, if◌then◌else◌, nat_eq, string_eq, pair_eq,
}
use openai_ipmi_proxy.Prelude.Lists.{length, find, remove}
use openai_ipmi_proxy.Prelude.Dict.{lookup, has, insert}
use openai_ipmi_proxy.Prelude.Heap.{update}
use openai_ipmi_proxy.Prelude.Int.{ℤ, pos, negsuc}
use openai_ipmi_proxy.Queue.State.{Key, Session, EndpointQueue, busy, new_session, new_entry}

-- A write to the fields of one session.
abbrev pub set_session : EndpointQueue → ℕ → Session → EndpointQueue
set_session q r s = record q { objects = update q.objects r s }

-- The branch of `get_or_create_session` on what `self.sessions.get(key)` finds.
unfoldable pub adopt_session :
    EndpointQueue → Option ℕ → Key → String → String → String → ℕ → EndpointQueue × ℕ
unfolding new_session
adopt_session q none key api client_ip user_agent now =
    let r = q.next_object in
    let fresh = new_session key api client_ip user_agent now in
    (
      record q {
        objects = update q.objects r fresh;
        next_object = suc r;
        sessions = insert key r q.sessions;
      },
      r,
    )
adopt_session q (some r) key api client_ip user_agent now =
    let s = q.objects r in
    (
      set_session q r
          (record s { api = api; client_ip = client_ip; last_request_at = now; idle_since = none }),
      r,
    )

-- `get_or_create_session`: the queue, and the reference of the session.
unfoldable pub get_or_create_session :
    EndpointQueue → String → String → String → String → String → ℕ → EndpointQueue × ℕ
unfolding adopt_session
get_or_create_session q client session_id api client_ip user_agent now =
    let key : Key = (client, session_id) in
    adopt_session q (lookup key q.sessions) key api client_ip user_agent now

-- `_spot_key`
unfoldable pub shared_spot : EndpointQueue → Option Key → Option Key
shared_spot q none = none
shared_spot q (some shared) = if has shared q.spots then some shared else none

unfoldable pub spot_key : EndpointQueue → Session → Option Key
unfolding shared_spot
spot_key q s = if has s.key q.spots then some s.key else shared_spot q s.shared_spot_key

-- `cap < 0 or inflight < cap`
abbrev pub under_cap : ℤ → ℕ → Bool
under_cap (negsuc n) inflight = true
under_cap (pos cap) inflight = ltb inflight cap

-- `_eligible`, for a session on the spot `_spot_key` found
unfoldable pub may_run : EndpointQueue → Session → Option Key → Bool
may_run q s (some spot) = under_cap q.max_inflight_per_session s.inflight
may_run q s none = ltb (length q.spots) q.max_spots

unfoldable pub eligible : EndpointQueue → ℕ → Bool
unfolding may_run spot_key
eligible q e =
    let s = q.objects (q.entries e).session in
    if q.atomic_requests && ltb 0 q.inflight_total then false else may_run q s (spot_key q s)

-- The counters of a promoted session.
unfoldable pub start_request : Session → Session
start_request s = record s {
  waiting_count = s.waiting_count - 1;
  inflight = s.inflight + 1;
  idle_since = none;
}

-- The end of a promotion: a session with no spot to run on takes one.
unfoldable pub take_spot : ℕ → EndpointQueue → ℕ → Option Key → EndpointQueue
take_spot now q r (some spot) =
    let s = q.objects r in
    set_session q r (record s { status = busy; status_detail = "in-flight request" })
take_spot now q r none =
    let s = q.objects r in
    record q {
      spots = insert s.key now q.spots;
      objects = update q.objects r (record s {
        spot_held = true;
        spot_acquired_at = now;
        status = busy;
        status_detail = "in-flight request";
      });
    }

-- The rest of the body of the loop of `_try_promote`, once the first eligible entry is known.
unfoldable pub promote : ℕ → EndpointQueue → ℕ → EndpointQueue
unfolding start_request take_spot spot_key
promote now q e =
    let entry = q.entries e in
    let r = entry.session in
    let started = start_request (q.objects r) in
    let q' = record q {
      queue = remove e q.queue;
      entries = update q.entries e (record entry { done = true; go = true });
      objects = update q.objects r started;
      inflight_total = q.inflight_total + 1;
    } in
    take_spot now q' r (spot_key q' started)

-- The `for` loop with its `break`: the first entry of the FIFO that may run.
abbrev pub first_eligible : EndpointQueue → Option ℕ
first_eligible q = find (eligible q) q.queue

-- The `while True` of `_try_promote`: each round takes an entry out, so as many rounds as entries
-- wait are enough.
unfoldable pub promote_loop : ℕ → ℕ → EndpointQueue → EndpointQueue
promote_loop zero now q = q
promote_loop (suc fuel) now q = elim (first_eligible q) [
  | none ↦ q
  | some e ↦ promote_loop fuel now (promote now q e)
]

-- `_try_promote`
unfoldable pub try_promote : ℕ → EndpointQueue → EndpointQueue
unfolding promote_loop
try_promote now q = if q.ready then promote_loop (length q.queue) now q else q

-- The entry that `_admit_queued` of relay/endpoints.py builds: the queue, and its reference.
unfoldable pub create_entry : EndpointQueue → ℕ → String → List ℕ → ℕ → ℕ → EndpointQueue × ℕ
unfolding new_entry
create_entry q session path body request now =
    let e = q.next_entry in
    (
      record q {
        entries = update q.entries e (new_entry session path body request now);
        next_entry = suc e;
      },
      e,
    )

-- The assignments of `enqueue`, before it promotes.
unfoldable pub append_entry : EndpointQueue → ℕ → EndpointQueue
append_entry q e =
    let entry = q.entries e in
    let s = q.objects entry.session in
    record q {
      objects =
          update q.objects entry.session
            (record s { waiting_count = s.waiting_count + 1; last_path = entry.path });
      queue = q.queue ++ e ∷ [];
    }

unfoldable pub enqueue : ℕ → EndpointQueue → ℕ → EndpointQueue
unfolding append_entry try_promote
enqueue now q e = try_promote now (append_entry q e)

-- `_remove_waiting`, which is all of `abandon`. The `ValueError` of an entry that is not in the
-- queue is suppressed, and `max(0, waiting - 1)` is `-` on ℕ.
unfoldable pub abandon : EndpointQueue → ℕ → EndpointQueue
abandon q e =
    let entry = q.entries e in
    let s = q.objects entry.session in
    if entry.done then q else record q {
      queue = remove e q.queue;
      objects = update q.objects entry.session (record s { waiting_count = s.waiting_count - 1 });
    }

-- The assignments of `release`; `max(0, inflight_total - 1)` is `-` on ℕ.
unfoldable pub finish_request : ℕ → EndpointQueue → ℕ → EndpointQueue
finish_request now q e =
    let r = (q.entries e).session in
    let s = q.objects r in
    if ltb 0 s.inflight
    then record q {
      objects = update q.objects r (record s { inflight = s.inflight - 1; last_request_at = now });
      inflight_total = q.inflight_total - 1;
    }
    else set_session q r (record s { last_request_at = now })

-- `release` reads the clock twice: for `last_request_at` and, in `_try_promote`, for the spots.
unfoldable pub release : ℕ → ℕ → EndpointQueue → ℕ → EndpointQueue
unfolding finish_request try_promote
release now later q e = try_promote later (finish_request now q e)
