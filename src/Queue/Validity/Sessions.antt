-- ===== src/Queue/Validity/Sessions.antt =====
-- relay/queue.py: `get_or_create_session` keeps the queue well formed.
use openai_ipmi_proxy.Prelude.{
  ℕ, ◌+◌, ◌<◌, ◌≡◌, refl, ◌≢◌, inl, inr, true, none, some, arith, nat_eq, string_eq, pair_eq,
  nat_beq, Option-cases, Bool-cases, nat_beq_iff, pair_beq_iff, String,
}
use openai_ipmi_proxy.Prelude.Lists.{contains, count_none, count-pos}
use openai_ipmi_proxy.Prelude.Dict.{has, lookup, distinct-insert, lookup-insert}
use openai_ipmi_proxy.Queue.State.{Key, EndpointQueue}
use openai_ipmi_proxy.Queue.Invariant.{IsValid, is_entry_of, queued_for, is_held_by}
use openai_ipmi_proxy.Queue.Admission.{adopt_session, get_or_create_session}
use openai_ipmi_proxy.Queue.Validity.Write.{write-IsValid}

module _ (q : EndpointQueue) (key : Key) (api client_ip user_agent : String) (now : ℕ)
    (absent : lookup key q.sessions ≡ none) (v : IsValid q) where
  abbrev grown : EndpointQueue
  unfolding adopt_session
  grown = (adopt_session q none key api client_ip user_agent now).0

  -- Nothing waits on a reference that was not given out.
  unused : (e : ℕ) → contains q.queue e ≡ true → (q.entries e).session ≢ q.next_object
  unused e c same = ground (
    arith,
    v.fresh (q.objects q.next_object).key q.next_object,
    v.live_tracked q.next_object,
    v.waiting_counted q.next_object,
    count-pos (is_entry_of q q.next_object) e q.queue c ((nat_beq_iff _ _).1 same),
  )

  waiting_counted-grow : (r : ℕ) → (grown.objects r).waiting_count ≡ queued_for grown r
  unfolding adopt_session
  waiting_counted-grow r = elim (Bool-cases (nat_beq q.next_object r)) [
    | inl new ↦
        ground (arith, count_none (is_entry_of q r) q.queue (λ e c. ground (arith, unused e c)))
    | inr old ↦ ground (arith, v.waiting_counted r)
  ]

  filed-grow : (k : Key) (r : ℕ) → lookup k grown.sessions ≡ some r → (grown.objects r).key ≡ k
  unfolding adopt_session
  filed-grow k r h = ground (
    arith,
    v.filed k r,
    v.fresh k r,
    lookup-insert key k q.next_object q.sessions,
    pair_beq_iff key k,
  )

  live_tracked-grow :
      (r : ℕ)
      → 0 < (grown.objects r).waiting_count + (grown.objects r).inflight
      → lookup (grown.objects r).key grown.sessions ≡ some r
  unfolding adopt_session
  live_tracked-grow r h = ground (
    arith,
    v.live_tracked r,
    lookup-insert key (q.objects r).key q.next_object q.sessions,
    pair_beq_iff key (q.objects r).key,
  )

  spots_owned-grow :
      (k : Key) → has k grown.spots ≡ true → is_held_by grown (lookup k grown.sessions) ≡ true
  unfolding adopt_session
  spots_owned-grow k h = elim (Option-cases (lookup k q.sessions)) [
    | inl gone ↦ ground (arith, v.spots_owned k)
    | inr (r, found) ↦ ground (
      arith,
      v.spots_owned k,
      v.fresh k r found,
      lookup-insert key k q.next_object q.sessions,
      pair_beq_iff key k,
    )
  ]

  held_spots-grow :
      (k : Key) (r : ℕ)
      → lookup k grown.sessions ≡ some r
      → (grown.objects r).spot_held ≡ true
      → has k grown.spots ≡ true
  unfolding adopt_session
  held_spots-grow k r t h = ground (
    arith,
    v.held_spots k r,
    v.fresh k r,
    lookup-insert key k q.next_object q.sessions,
    pair_beq_iff key k,
  )

  fresh-grow : (k : Key) (r : ℕ) → lookup k grown.sessions ≡ some r → r < grown.next_object
  unfolding adopt_session
  fresh-grow k r t =
      ground (arith, v.fresh k r, lookup-insert key k q.next_object q.sessions, pair_beq_iff key k)

  grow-IsValid : IsValid grown
  unfolding adopt_session
  grow-IsValid = record {
    spots_bounded = v.spots_bounded;
    spots_distinct = v.spots_distinct;
    sessions_distinct = distinct-insert key q.next_object q.sessions v.sessions_distinct;
    queue_distinct = v.queue_distinct;
    waiting_counted = waiting_counted-grow;
    pending = v.pending;
    filed = filed-grow;
    live_tracked = live_tracked-grow;
    spots_owned = spots_owned-grow;
    held_spots = held_spots-grow;
    fresh_entries = v.fresh_entries;
    fresh = fresh-grow;
  }

-- The session that the call returns is in the dictionary, under its key.
pub get_or_create_session-IsValid :
    (q : EndpointQueue) (client session_id api client_ip user_agent : String) (now : ℕ)
    → IsValid q
    → let (p, r) = get_or_create_session q client session_id api client_ip user_agent now in
      IsValid p
      × (lookup (client, session_id) p.sessions ≡ some r)
      × ((p.objects r).key ≡ (client, session_id))
unfolding get_or_create_session
get_or_create_session-IsValid q client session_id api client_ip user_agent now v =
    let key : Key = (client, session_id) in
    elim (Option-cases (lookup key q.sessions)) [
      | inl gone ↦
          rw (gone, adopt_session)
            (
              grow-IsValid q key api client_ip user_agent now gone v,
              ground (arith, lookup-insert key key q.next_object q.sessions, pair_beq_iff key key),
              ground arith,
            )
      | inr (r, found) ↦
          rw (found, adopt_session)
            (
              write-IsValid q r q.inflight_total
                  (record (q.objects r) {
                    api = api;
                    client_ip = client_ip;
                    last_request_at = now;
                    idle_since = none;
                  })
                  refl refl (omega arith) refl v,
              found,
              ground (arith, v.filed key r found),
            )
    ]
