-- ===== src/Queue/Validity/Spots.antt =====
-- relay/queue.py: giving a spot back, and `tick`, keep the queue well formed.
use openai_ipmi_proxy.Prelude.{
  ℕ, ◌+◌, ◌<◌, ◌≡◌, inl, inr, true, false, some, arith, nat_eq, string_eq, pair_eq, Option-cases,
  Bool-cases, pair_beq_iff, String,
}
use openai_ipmi_proxy.Prelude.Dict.{
  has, lookup, pop, distinct-pop, length-pop-le, lookup-pop, has-pop,
}
use openai_ipmi_proxy.Queue.State.{Key, EndpointQueue}
use openai_ipmi_proxy.Queue.Invariant.{IsValid, is_held_by}
use openai_ipmi_proxy.Queue.Lifecycle.{
  is_dormant, drop_spot, release_spot, release_found, release_session,
}
use openai_ipmi_proxy.Queue.Validity.Promote.{try_promote-IsValid}

module _ (q : EndpointQueue) (r : ℕ) (key : Key) (tracked : lookup key q.sessions ≡ some r)
    (v : IsValid q) where
  live_tracked-drop :
      (x : ℕ)
      → 0 < ((drop_spot q r key).objects x).waiting_count + ((drop_spot q r key).objects x).inflight
      → lookup ((drop_spot q r key).objects x).key (drop_spot q r key).sessions ≡ some x
  unfolding drop_spot
  live_tracked-drop x h = ground (
    arith,
    v.live_tracked x,
    lookup-pop key (q.objects x).key q.sessions v.sessions_distinct,
    pair_beq_iff key (q.objects x).key,
  )

  filed-drop :
      (k : Key) (x : ℕ)
      → lookup k (drop_spot q r key).sessions ≡ some x
      → ((drop_spot q r key).objects x).key ≡ k
  unfolding drop_spot
  filed-drop k x h = ground (arith, v.filed k x, lookup-pop key k q.sessions v.sessions_distinct)

  spots_owned-drop :
      (k : Key)
      → has k (drop_spot q r key).spots ≡ true
      → is_held_by (drop_spot q r key) (lookup k (drop_spot q r key).sessions) ≡ true
  unfolding drop_spot
  spots_owned-drop k h = elim (Option-cases (lookup k q.sessions)) [
    | inl gone ↦ ground (arith, v.spots_owned k, has-pop key k q.spots v.spots_distinct)
    | inr (x, found) ↦ ground (
      arith,
      v.spots_owned k,
      has-pop key k q.spots v.spots_distinct,
      lookup-pop key k q.sessions v.sessions_distinct,
      v.filed k x found,
      v.filed key r tracked,
      pair_beq_iff key k,
    )
  ]

  held_spots-drop :
      (k : Key) (x : ℕ)
      → lookup k (drop_spot q r key).sessions ≡ some x
      → ((drop_spot q r key).objects x).spot_held ≡ true
      → has k (drop_spot q r key).spots ≡ true
  unfolding drop_spot
  held_spots-drop k x t h = ground (
    arith,
    v.held_spots k x,
    has-pop key k q.spots v.spots_distinct,
    lookup-pop key k q.sessions v.sessions_distinct,
    v.filed k x,
    v.filed key r tracked,
    pair_beq_iff key k,
  )

  drop_spot-IsValid : IsValid (drop_spot q r key)
  drop_spot-IsValid = record {
    spots_bounded = unfold drop_spot in omega (arith, v.spots_bounded, length-pop-le key q.spots);
    spots_distinct = unfold drop_spot in distinct-pop key q.spots v.spots_distinct;
    sessions_distinct =
        unfold drop_spot in ground (arith, v.sessions_distinct, distinct-pop key q.sessions);
    queue_distinct = unfold drop_spot in v.queue_distinct;
    waiting_counted = λ x. unfold drop_spot in ground (arith, v.waiting_counted x);
    pending = unfold drop_spot in v.pending;
    filed = filed-drop;
    live_tracked = live_tracked-drop;
    spots_owned = spots_owned-drop;
    held_spots = held_spots-drop;
    fresh_entries = unfold drop_spot in v.fresh_entries;
    fresh = λ k x h.
        unfold drop_spot in
        ground (arith, v.fresh k x, lookup-pop key k q.sessions v.sessions_distinct);
  }

  pub release_spot-IsValid : (now : ℕ) → IsValid (release_spot now q r key)
  unfolding release_spot
  release_spot-IsValid now = try_promote-IsValid now (drop_spot q r key) drop_spot-IsValid

  -- A dormant session with no spot is forgotten.
  pub forget-IsValid :
      is_dormant (q.objects r) ≡ true
      → (q.objects r).spot_held ≡ false
      → IsValid (record q { sessions = pop key q.sessions })
  forget-IsValid dormant spotless = record {
    spots_bounded = v.spots_bounded;
    spots_distinct = v.spots_distinct;
    sessions_distinct = distinct-pop key q.sessions v.sessions_distinct;
    queue_distinct = v.queue_distinct;
    waiting_counted = v.waiting_counted;
    pending = v.pending;
    filed = λ k x h. ground (arith, v.filed k x, lookup-pop key k q.sessions v.sessions_distinct);
    live_tracked = λ x h. ground (
      arith,
      v.live_tracked x h,
      lookup-pop key (q.objects x).key q.sessions v.sessions_distinct,
      pair_beq_iff key (q.objects x).key,
    );
    spots_owned = λ k h. ground (
      arith,
      v.spots_owned k h,
      lookup-pop key k q.sessions v.sessions_distinct,
      pair_beq_iff key k,
    );
    held_spots = λ k x h t.
        ground (arith, v.held_spots k x, lookup-pop key k q.sessions v.sessions_distinct);
    fresh_entries = v.fresh_entries;
    fresh = λ k x h. ground (arith, v.fresh k x, lookup-pop key k q.sessions v.sessions_distinct);
  }

pub release_session-IsValid :
    (now : ℕ) (q : EndpointQueue) (client session_id : String)
    → IsValid q
    → IsValid (release_session now q client session_id).0
unfolding release_session release_found
release_session-IsValid now q client session_id v =
    let key : Key = (client, session_id) in
    elim (Option-cases (lookup key q.sessions)) [
      | inl gone ↦ rw (gone, release_found) v
      | inr (r, found) ↦ elim (Bool-cases (q.objects r).spot_held) [
        | inl held ↦ rw (found, release_found) (rw held (release_spot-IsValid q r key found v now))
        | inr free ↦ rw (found, release_found) (rw free v)
      ]
    ]
