-- ===== src/Queue/Validity/Write.antt =====
-- relay/queue.py: writes to one session, `get_or_create_session` and `release` keep the queue well
-- formed.
use openai_ipmi_proxy.Prelude.{
  ℕ, ◌+◌, ◌-◌, ◌≤◌, ◌<◌, ◌≡◌, refl, ◌∙◌, inl, inr, true, some, List, arith, nat_eq, string_eq,
  pair_eq, Option-cases, Bool-cases, ltb, String,
}
use openai_ipmi_proxy.Prelude.Lists.{count_ext_on}
use openai_ipmi_proxy.Prelude.Dict.{has, lookup}
use openai_ipmi_proxy.Prelude.Heap.{update}
use openai_ipmi_proxy.Queue.State.{Key, Session, EndpointQueue}
use openai_ipmi_proxy.Queue.Invariant.{IsValid, is_held_by}
use openai_ipmi_proxy.Queue.Admission.{create_entry, finish_request, release}
use openai_ipmi_proxy.Queue.Validity.Promote.{try_promote-IsValid}

-- A write to a session that leaves its key, its queue count and its spot, and starts no request.
module _ (q : EndpointQueue) (r total : ℕ) (s : Session) (same_key : s.key ≡ (q.objects r).key)
    (same_waiting : s.waiting_count ≡ (q.objects r).waiting_count)
    (fewer : s.inflight ≤ (q.objects r).inflight)
    (same_spot : s.spot_held ≡ (q.objects r).spot_held) (v : IsValid q) where
  abbrev written : EndpointQueue
  written = record q { objects = update q.objects r s; inflight_total = total }

  live_tracked-write :
      (x : ℕ)
      → 0 < (written.objects x).waiting_count + (written.objects x).inflight
      → lookup (written.objects x).key written.sessions ≡ some x
  live_tracked-write x h = ground (arith, v.live_tracked x)

  spots_owned-write :
      (k : Key) → has k written.spots ≡ true → is_held_by written (lookup k written.sessions) ≡ true
  spots_owned-write k h = ground (arith, v.spots_owned k, Option-cases (lookup k q.sessions))

  pub write-IsValid : IsValid written
  write-IsValid = record {
    spots_bounded = v.spots_bounded;
    spots_distinct = v.spots_distinct;
    sessions_distinct = v.sessions_distinct;
    queue_distinct = v.queue_distinct;
    waiting_counted = λ x. ground (arith, v.waiting_counted x);
    pending = v.pending;
    filed = λ k x h. ground (arith, v.filed k x);
    live_tracked = live_tracked-write;
    spots_owned = spots_owned-write;
    held_spots = λ k x h held. ground (arith, v.held_spots k x);
    fresh_entries = v.fresh_entries;
    fresh = v.fresh;
  }

finish_request-IsValid :
    (now : ℕ) (q : EndpointQueue) (e : ℕ) → IsValid q → IsValid (finish_request now q e)
unfolding finish_request
finish_request-IsValid now q e v =
    let r = (q.entries e).session in
    let s = q.objects r in
    elim (Bool-cases (ltb 0 s.inflight)) [
      | inl running ↦ rw running (
          write-IsValid q r (q.inflight_total - 1)
            (record s { inflight = s.inflight - 1; last_request_at = now }) refl refl (omega arith)
            refl v)
      | inr none_running ↦ rw none_running (
          write-IsValid q r q.inflight_total (record s { last_request_at = now }) refl refl
            (omega arith) refl v)
    ]

pub release-IsValid :
    (now later : ℕ) (q : EndpointQueue) (e : ℕ) → IsValid q → IsValid (release now later q e)
unfolding release
release-IsValid now later q e v =
    try_promote-IsValid later (finish_request now q e) (finish_request-IsValid now q e v)

pub create_entry-IsValid :
    (q : EndpointQueue) (session : ℕ) (path : String) (body : List ℕ) (request now : ℕ)
    → IsValid q
    → IsValid (create_entry q session path body request now).0
unfolding create_entry
create_entry-IsValid q session path body request now v = record {
  spots_bounded = v.spots_bounded;
  spots_distinct = v.spots_distinct;
  sessions_distinct = v.sessions_distinct;
  queue_distinct = v.queue_distinct;
  waiting_counted = λ r.
      v.waiting_counted r ∙ count_ext_on _ _ q.queue (λ e c. ground (arith, v.fresh_entries e));
  pending = λ e h. ground (arith, v.pending e, v.fresh_entries e);
  filed = v.filed;
  live_tracked = v.live_tracked;
  spots_owned = λ k h. ground (arith, v.spots_owned k, Option-cases (lookup k q.sessions));
  held_spots = v.held_spots;
  fresh_entries = λ e h. omega (arith, v.fresh_entries e h);
  fresh = v.fresh;
}
