-- ===== src/Queue/Runs.antt =====
-- relay/queue.py: the histories of an `EndpointQueue` under its own operations, as steps that the event loop
-- interleaves. What WebSockets and the polls write to it is in Endpoint/Socket and Endpoint/Polling.
use openai_ipmi_proxy.Prelude.{
  ℕ, ◌≡◌, Bool, true, List, arith, nat_eq, string_eq, pair_eq, Option-cases, String,
}
use openai_ipmi_proxy.Prelude.Lists.{contains}
use openai_ipmi_proxy.Prelude.Dict.{lookup}
use openai_ipmi_proxy.Prelude.Int.{ℤ}
use openai_ipmi_proxy.Queue.State.{EndpointQueue}
use openai_ipmi_proxy.Queue.Invariant.{IsValid}
use openai_ipmi_proxy.Queue.State.{init}
use openai_ipmi_proxy.Queue.Invariant.{init-IsValid}
use openai_ipmi_proxy.Queue.Admission.{
  get_or_create_session, create_entry, enqueue, abandon, release, try_promote,
}
use openai_ipmi_proxy.Queue.Lifecycle.{release_session, tick}
use openai_ipmi_proxy.Queue.Validity.Promote.{try_promote-IsValid}
use openai_ipmi_proxy.Queue.Validity.Write.{release-IsValid, create_entry-IsValid}
use openai_ipmi_proxy.Queue.Validity.Sessions.{get_or_create_session-IsValid}
use openai_ipmi_proxy.Queue.Validity.Waiting.{IsNew, enqueue-IsValid, abandon-IsValid}
use openai_ipmi_proxy.Queue.Validity.Spots.{release_session-IsValid}
use openai_ipmi_proxy.Queue.Validity.Tick.{tick-IsValid}

-- What happens to the queue, one synchronous piece of code at a time. `submit` takes in an entry
-- whose session is in the dictionary; `leave` drops an entry that waits.
pub data Step : EndpointQueue → EndpointQueue → Type 0 where
  look_up :
      (q : EndpointQueue) (client session_id api client_ip user_agent : String) (now : ℕ)
      → Step q (get_or_create_session q client session_id api client_ip user_agent now).0
  build :
      (q : EndpointQueue) (session : ℕ) (path : String) (body : List ℕ) (request now : ℕ)
      → Step q (create_entry q session path body request now).0
  submit : (q : EndpointQueue) (now e : ℕ) → IsNew q e → Step q (enqueue now q e)
  leave : (q : EndpointQueue) (e : ℕ) → contains q.queue e ≡ true → Step q (abandon q e)
  finish : (q : EndpointQueue) (now later e : ℕ) → Step q (release now later q e)
  surrender :
      (q : EndpointQueue) (now : ℕ) (client session_id : String)
      → Step q (release_session now q client session_id).0
  passes : (q : EndpointQueue) (now : ℕ) (clock : ℕ → ℕ) → Step q (tick now clock q).0
  probed : (q : EndpointQueue) (ready : Bool) → Step q (record q { ready = ready })
  promotes : (q : EndpointQueue) (now : ℕ) → Step q (try_promote now q)

pub data Reach (s : EndpointQueue) : EndpointQueue → Type 0 where
  start : Reach s s
  after : {q p : EndpointQueue} → Reach s q → Step q p → Reach s p

probed-IsValid :
    (q : EndpointQueue) (ready : Bool) → IsValid q → IsValid (record q { ready = ready })
probed-IsValid q ready v = record {
  spots_bounded = v.spots_bounded;
  spots_distinct = v.spots_distinct;
  sessions_distinct = v.sessions_distinct;
  queue_distinct = v.queue_distinct;
  waiting_counted = v.waiting_counted;
  pending = v.pending;
  filed = v.filed;
  live_tracked = v.live_tracked;
  spots_owned = λ k h. ground (arith, v.spots_owned k, Option-cases (lookup k q.sessions));
  held_spots = v.held_spots;
  fresh_entries = v.fresh_entries;
  fresh = v.fresh;
}

Step-IsValid : {q p : EndpointQueue} → Step q p → IsValid q → IsValid p
Step-IsValid (look_up q client session_id api client_ip user_agent now) v =
    (get_or_create_session-IsValid q client session_id api client_ip user_agent now v).0
Step-IsValid (build q session path body request now) v =
    create_entry-IsValid q session path body request now v
Step-IsValid (submit q now e n) v = enqueue-IsValid now q e n v
Step-IsValid (leave q e queued) v = abandon-IsValid q e queued v
Step-IsValid (finish q now later e) v = release-IsValid now later q e v
Step-IsValid (surrender q now client session_id) v =
    release_session-IsValid now q client session_id v
Step-IsValid (passes q now clock) v = tick-IsValid now clock q v
Step-IsValid (probed q ready) v = probed-IsValid q ready v
Step-IsValid (promotes q now) v = try_promote-IsValid now q v

Reach-IsValid : {s q : EndpointQueue} → IsValid s → Reach s q → IsValid q
Reach-IsValid v start = v
Reach-IsValid v (after r st) = Step-IsValid st (Reach-IsValid v r)

-- However the operations interleave from a new queue, as long as each request is taken in while its session is in the dictionary and each abandoned entry still waits: there are never more spots than `max_spots`, the waiting counts match the queue, each key has one session object, and the spots are exactly those that the sessions in the dictionary hold.
pub Reach-init-IsValid :
    (max_spots max_inflight : ℤ) (busy_window session_expiry : ℕ) (atomic immediate : Bool)
    {q : EndpointQueue}
    → Reach (init max_spots max_inflight busy_window session_expiry atomic immediate) q
    → IsValid q
Reach-init-IsValid max_spots max_inflight busy_window session_expiry atomic immediate r =
    Reach-IsValid (init-IsValid max_spots max_inflight busy_window session_expiry atomic immediate)
      r
