-- ===== src/Queue/Validity/Promote.antt =====
-- relay/queue.py: `_try_promote` keeps the queue well formed.
use openai_ipmi_proxy.Prelude.{
  ℕ, ◌+◌, ◌<◌, ◌≡◌, refl, true, false, some, arith, nat_eq, string_eq, pair_eq, Option-cases,
  nat_beq_iff, if◌then◌else◌, pair_beq_iff,
}
use openai_ipmi_proxy.Prelude.Lists.{
  contains, distinct, contains_of_find, count_ext, count-remove, count-pos, contains-remove_self,
  contains_of_contains-remove, distinct-remove, remove,
}
use openai_ipmi_proxy.Prelude.Dict.{keys, has, lookup, distinct-insert, has-insert}
use openai_ipmi_proxy.Queue.State.{Key, EndpointQueue}
use openai_ipmi_proxy.Queue.Admission.{eligible, promote, first_eligible, try_promote}
use openai_ipmi_proxy.Queue.Promotion.{promote-queue, try_promote_inv, promote-spots_bounded}
use openai_ipmi_proxy.Queue.Invariant.{IsValid, is_entry_of, queued_for, is_held_by}

module _ (now : ℕ) (q : EndpointQueue) (e : ℕ) where
  spots_distinct-promote :
      distinct (keys q.spots) ≡ true → distinct (keys (promote now q e).spots) ≡ true
  unfolding promote
  spots_distinct-promote d =
      ground (arith, distinct-insert (q.objects (q.entries e).session).key now q.spots)

  sessions_same :
      distinct (keys q.sessions) ≡ true → distinct (keys (promote now q e).sessions) ≡ true
  unfolding promote
  sessions_same d = ground arith

  fresh-promote :
      ((k : Key) (r : ℕ) → lookup k q.sessions ≡ some r → r < q.next_object)
      → (k : Key) (r : ℕ) → lookup k (promote now q e).sessions ≡ some r
      → r < (promote now q e).next_object
  unfolding promote
  fresh-promote f k r h = ground (arith, f k r)

module _ (now : ℕ) (q : EndpointQueue) (e : ℕ) (found : first_eligible q ≡ some e)
    (v : IsValid q) where
  -- The entry is in the queue, and so its session waits and is in the dictionary.
  is_queued : contains q.queue e ≡ true
  is_queued = contains_of_find (eligible q) q.queue e found

  is_waiting : 0 < (q.objects (q.entries e).session).waiting_count
  is_waiting = omega (
    arith,
    v.waiting_counted (q.entries e).session,
    count-pos (is_entry_of q (q.entries e).session) e q.queue is_queued ((nat_beq_iff _ _).1 refl),
  )

  is_tracked : lookup (q.objects (q.entries e).session).key q.sessions ≡ some (q.entries e).session
  is_tracked = v.live_tracked (q.entries e).session (omega (arith, is_waiting))

  same_entry : (r x : ℕ) → is_entry_of (promote now q e) r x ≡ is_entry_of q r x
  unfolding promote
  same_entry r x = ground arith

  queued_for-promote :
      (r : ℕ)
      → (if is_entry_of q r e then 1 else 0) + queued_for (promote now q e) r ≡ queued_for q r
  queued_for-promote r =
      rw
        (
          promote-queue now q e,
          count_ext (is_entry_of (promote now q e) r) (is_entry_of q r) (remove e q.queue)
              (same_entry r),
        )
        (count-remove (is_entry_of q r) e q.queue is_queued)

  waiting_counted-promote :
      (r : ℕ) → ((promote now q e).objects r).waiting_count ≡ queued_for (promote now q e) r
  unfolding promote
  waiting_counted-promote r = ground (arith, queued_for-promote r, v.waiting_counted r, is_waiting)

  pending-promote :
      (x : ℕ)
      → contains (promote now q e).queue x ≡ true
      → ((promote now q e).entries x).done ≡ false
  unfolding promote
  pending-promote x c = ground (
    arith,
    v.pending x,
    contains_of_contains-remove e x q.queue,
    contains-remove_self e q.queue v.queue_distinct,
  )

  fresh_entries-promote :
      (x : ℕ) → contains (promote now q e).queue x ≡ true → x < (promote now q e).next_entry
  unfolding promote
  fresh_entries-promote x c =
      ground (arith, v.fresh_entries x, contains_of_contains-remove e x q.queue)

  filed-promote :
      (k : Key) (r : ℕ)
      → lookup k (promote now q e).sessions ≡ some r
      → ((promote now q e).objects r).key ≡ k
  unfolding promote
  filed-promote k r h = ground (arith, v.filed k r)

  live_tracked-promote :
      (r : ℕ)
      → 0 < ((promote now q e).objects r).waiting_count + ((promote now q e).objects r).inflight
      → lookup ((promote now q e).objects r).key (promote now q e).sessions ≡ some r
  unfolding promote
  live_tracked-promote r h = ground (arith, v.live_tracked r, is_tracked)

  spots_owned-promote :
      (k : Key)
      → has k (promote now q e).spots ≡ true
      → is_held_by (promote now q e) (lookup k (promote now q e).sessions) ≡ true
  unfolding promote
  spots_owned-promote k h = ground (
    arith,
    v.spots_owned k,
    is_tracked,
    v.filed k,
    Option-cases (lookup k q.sessions),
    has-insert (q.objects (q.entries e).session).key k now q.spots,
    pair_beq_iff (q.objects (q.entries e).session).key k,
  )

  held_spots-promote :
      (k : Key) (r : ℕ)
      → lookup k (promote now q e).sessions ≡ some r
      → ((promote now q e).objects r).spot_held ≡ true
      → has k (promote now q e).spots ≡ true
  unfolding promote
  held_spots-promote k r t h = ground (
    arith,
    v.held_spots k r,
    v.filed k r,
    has-insert (q.objects (q.entries e).session).key k now q.spots,
    pair_beq_iff (q.objects (q.entries e).session).key k,
  )

  promote-IsValid : IsValid (promote now q e)
  promote-IsValid = record {
    spots_bounded = promote-spots_bounded now q e found v.spots_bounded;
    spots_distinct = spots_distinct-promote now q e v.spots_distinct;
    sessions_distinct = sessions_same now q e v.sessions_distinct;
    queue_distinct = rw (promote-queue now q e) (distinct-remove e q.queue v.queue_distinct);
    waiting_counted = waiting_counted-promote;
    pending = pending-promote;
    filed = filed-promote;
    live_tracked = live_tracked-promote;
    spots_owned = spots_owned-promote;
    held_spots = held_spots-promote;
    fresh_entries = fresh_entries-promote;
    fresh = fresh-promote now q e v.fresh;
  }

pub try_promote-IsValid : (now : ℕ) (q : EndpointQueue) → IsValid q → IsValid (try_promote now q)
try_promote-IsValid now q v = try_promote_inv IsValid now (promote-IsValid now) q v
