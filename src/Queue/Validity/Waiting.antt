-- ===== src/Queue/Validity/Waiting.antt =====
-- relay/queue.py: `enqueue` and `abandon` keep the queue well formed.
use openai_ipmi_proxy.Prelude.{
  ℕ, ◌+◌, ◌<◌, ◌≡◌, true, false, some, [], ◌∷◌, arith, nat_eq, string_eq, pair_eq, Option-cases,
}
use openai_ipmi_proxy.Prelude.Lists.{
  contains, count, count-remove, count-append, contains_of_contains-remove, distinct-remove,
  contains-append, distinct-append_new,
}
use openai_ipmi_proxy.Prelude.Dict.{has, lookup}
use openai_ipmi_proxy.Queue.State.{Key, EndpointQueue}
use openai_ipmi_proxy.Queue.Invariant.{IsValid, is_entry_of, queued_for, is_held_by}
use openai_ipmi_proxy.Queue.Admission.{append_entry, enqueue, abandon}
use openai_ipmi_proxy.Queue.Validity.Promote.{try_promote-IsValid}

-- An entry that `create_entry` gave out and that is not queued, of a session in the dictionary.
pub record IsNew (q : EndpointQueue) (e : ℕ) : Type 0 where
  pub known_entry : e < q.next_entry
  pub unqueued : contains q.queue e ≡ false
  pub undone : (q.entries e).done ≡ false
  pub tracked : lookup (q.objects (q.entries e).session).key q.sessions ≡ some (q.entries e).session

module _ (q : EndpointQueue) (e : ℕ) (n : IsNew q e) (v : IsValid q) where
  waiting_counted-append :
      (r : ℕ) → ((append_entry q e).objects r).waiting_count ≡ queued_for (append_entry q e) r
  unfolding append_entry count
  waiting_counted-append r =
      ground (arith, v.waiting_counted r, count-append (is_entry_of q r) q.queue (e ∷ []))

  queue-append :
      (x : ℕ)
      → contains (append_entry q e).queue x ≡ true
      → ((q.entries x).done ≡ false) × (x < q.next_entry)
  unfolding append_entry contains
  queue-append x c = ground (
    arith,
    contains-append q.queue (e ∷ []) x,
    v.pending x,
    v.fresh_entries x,
    n.undone,
    n.known_entry,
  )

  live_tracked-append :
      (r : ℕ)
      → 0 < ((append_entry q e).objects r).waiting_count + ((append_entry q e).objects r).inflight
      → lookup ((append_entry q e).objects r).key (append_entry q e).sessions ≡ some r
  unfolding append_entry
  live_tracked-append r h = ground (arith, v.live_tracked r, n.tracked)

  spots_owned-append :
      (k : Key)
      → has k (append_entry q e).spots ≡ true
      → is_held_by (append_entry q e) (lookup k (append_entry q e).sessions) ≡ true
  unfolding append_entry
  spots_owned-append k h = ground (arith, v.spots_owned k, Option-cases (lookup k q.sessions))

  append_entry-IsValid : IsValid (append_entry q e)
  unfolding append_entry
  append_entry-IsValid = record {
    spots_bounded = v.spots_bounded;
    spots_distinct = v.spots_distinct;
    sessions_distinct = v.sessions_distinct;
    queue_distinct = distinct-append_new q.queue e v.queue_distinct n.unqueued;
    waiting_counted = waiting_counted-append;
    pending = λ x c. (queue-append x c).0;
    filed = λ k r h. ground (arith, v.filed k r);
    live_tracked = live_tracked-append;
    spots_owned = spots_owned-append;
    held_spots = λ k r h t. ground (arith, v.held_spots k r);
    fresh_entries = λ x c. (queue-append x c).1;
    fresh = v.fresh;
  }

pub enqueue-IsValid :
    (now : ℕ) (q : EndpointQueue) (e : ℕ) → IsNew q e → IsValid q → IsValid (enqueue now q e)
unfolding enqueue
enqueue-IsValid now q e n v =
    try_promote-IsValid now (append_entry q e) (append_entry-IsValid q e n v)

module _ (q : EndpointQueue) (e : ℕ) (waits : (q.entries e).done ≡ false)
    (queued : contains q.queue e ≡ true) (v : IsValid q) where
  waiting_counted-abandon :
      (r : ℕ) → ((abandon q e).objects r).waiting_count ≡ queued_for (abandon q e) r
  unfolding abandon
  waiting_counted-abandon r =
      ground (arith, v.waiting_counted r, count-remove (is_entry_of q r) e q.queue queued)

  queue-abandon :
      (x : ℕ)
      → contains (abandon q e).queue x ≡ true
      → (((abandon q e).entries x).done ≡ false) × (x < (abandon q e).next_entry)
  unfolding abandon
  queue-abandon x c =
      ground (arith, v.pending x, v.fresh_entries x, contains_of_contains-remove e x q.queue)

  live_tracked-abandon :
      (r : ℕ)
      → 0 < ((abandon q e).objects r).waiting_count + ((abandon q e).objects r).inflight
      → lookup ((abandon q e).objects r).key (abandon q e).sessions ≡ some r
  unfolding abandon
  live_tracked-abandon r h = ground (arith, v.live_tracked r)

  spots_owned-abandon :
      (k : Key)
      → has k (abandon q e).spots ≡ true
      → is_held_by (abandon q e) (lookup k (abandon q e).sessions) ≡ true
  unfolding abandon
  spots_owned-abandon k h = ground (arith, v.spots_owned k, Option-cases (lookup k q.sessions))

  abandon_waiting-IsValid : IsValid (abandon q e)
  abandon_waiting-IsValid = record {
    spots_bounded = unfold abandon in ground arith;
    spots_distinct = unfold abandon in ground arith;
    sessions_distinct = unfold abandon in ground arith;
    queue_distinct = unfold abandon in ground (arith, distinct-remove e q.queue);
    waiting_counted = waiting_counted-abandon;
    pending = λ x c. (queue-abandon x c).0;
    filed = λ k r h. unfold abandon in ground (arith, v.filed k r);
    live_tracked = live_tracked-abandon;
    spots_owned = spots_owned-abandon;
    held_spots = λ k r h t. unfold abandon in ground (arith, v.held_spots k r);
    fresh_entries = λ x c. (queue-abandon x c).1;
    fresh = λ k r h. unfold abandon in ground (arith, v.fresh k r);
  }

pub abandon-IsValid :
    (q : EndpointQueue) (e : ℕ) → contains q.queue e ≡ true → IsValid q → IsValid (abandon q e)
abandon-IsValid q e queued v = abandon_waiting-IsValid q e (v.pending e queued) queued v
