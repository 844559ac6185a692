-- ===== src/Queue/Orphan.antt =====
-- relay/queue.py: a spot whose session is not in the dictionary. `_admit_queued` of relay/endpoints.py
-- waits for the store between `get_or_create_session` and `enqueue`, and a `tick` that runs meanwhile
-- forgets the new session, which has no request yet.
use openai_ipmi_proxy.Prelude.{
  ℕ, ◌<◌, ◌≡◌, refl, ◌∙◌, ap, ◌≢◌, true, false, none, List, [], ◌∷◌, ◌++◌, arith, nat_eq, string_eq,
  pair_eq, pair_beq_iff, String,
}
use openai_ipmi_proxy.Prelude.Lists.{length, contains, find}
use openai_ipmi_proxy.Prelude.Dict.{keys, has, has-insert, has-pop_ne, lookup-has}
use openai_ipmi_proxy.Queue.State.{Key, EndpointQueue}
use openai_ipmi_proxy.Queue.Admission.{
  set_session, promote, eligible, try_promote, append_entry, enqueue, promote_loop,
}
use openai_ipmi_proxy.Queue.Promotion.{try_promote_inv}
use openai_ipmi_proxy.Queue.Running.{promote-keeps}
use openai_ipmi_proxy.Prelude.Dict.{contains-keys}
use openai_ipmi_proxy.Queue.Lifecycle.{
  drop_spot, release_spot, release_found, release_session, ReleaseReason, refresh_status, TickState,
  expire_session, tick_session, tick_loop, tick,
}

try_promote-keeps :
    (now : ℕ) (k : Key) (q : EndpointQueue)
    → has k q.spots ≡ true
    → has k (try_promote now q).spots ≡ true
try_promote-keeps now k q =
    try_promote_inv (λ p. has k p.spots ≡ true) now (λ p e found h. promote-keeps now p e k h) q

expire_session-keeps :
    (now later : ℕ) (k key : Key) (r : ℕ) (q : EndpointQueue)
    (released : List (Key × ReleaseReason))
    → key ≢ k
    → has k q.spots ≡ true
    → has k (expire_session now later (q, released) key r).0.spots ≡ true
unfolding expire_session release_spot
expire_session-keeps now later k key r q released other h = ground (
  arith,
  try_promote-keeps later k (drop_spot q r key)
      (unfold drop_spot in has-pop_ne key k q.spots other ∙ h),
)

tick_session-keeps :
    (now later : ℕ) (k key : Key) (r : ℕ) (st : TickState)
    → key ≢ k
    → has k st.0.spots ≡ true
    → has k (tick_session now later st key r).0.spots ≡ true
unfolding tick_session
tick_session-keeps now later k key r st other h =
    expire_session-keeps now later k key r
      (set_session st.0 r (refresh_status st.0.busy_window (st.0.objects r) now)) st.1 other h

tick_loop-keeps :
    (now : ℕ) (clock : ℕ → ℕ) (k : Key) (items : List (Key × ℕ)) (st : TickState)
    → contains (keys items) k ≡ false
    → has k st.0.spots ≡ true
    → has k (tick_loop now clock items st).0.spots ≡ true
unfolding tick_loop contains
tick_loop-keeps now clock k [] st fresh h = h
tick_loop-keeps now clock k ((key, r) ∷ items) st fresh h =
    tick_loop-keeps now clock k items (tick_session now (clock r) st key r) (ground arith)
      (tick_session-keeps now (clock r) k key r st (λ same. ground (arith, pair_beq_iff key k)) h)

-- A spot whose session is not in the dictionary is out of reach: no `tick` gives it back, at whatever time, and `release_session` for its key answers that nothing was released and changes nothing.
pub orphan_spot_stays :
    (now : ℕ) (clock : ℕ → ℕ) (q : EndpointQueue) (client session_id : String)
    → has (client, session_id) q.sessions ≡ false
    → has (client, session_id) q.spots ≡ true
    → (has (client, session_id) (tick now clock q).0.spots ≡ true)
      × (release_session now q client session_id ≡ (q, false))
unfolding tick release_session
orphan_spot_stays now clock q client session_id gone h =
    let key : Key = (client, session_id) in
    (
      tick_loop-keeps now clock key q.sessions (q, []) (contains-keys key q.sessions ∙ gone) h,
      rw (lookup-has key q.sessions gone, release_found) refl,
    )

try_promote_single :
    (now : ℕ) (p : EndpointQueue) (e : ℕ)
    → p.ready ≡ true
    → p.queue ≡ e ∷ []
    → eligible p e ≡ true
    → try_promote now p ≡ promote now p e
unfolding try_promote promote_loop find
try_promote_single now p e ready single may = ground arith

module _ (now : ℕ) (q : EndpointQueue) (e : ℕ)
    (own : has (q.objects (q.entries e).session).key q.spots ≡ false)
    (shared : (q.objects (q.entries e).session).shared_spot_key ≡ none) where
  append-eligible :
      (q.atomic_requests ≡ true → q.inflight_total ≡ 0)
      → length q.spots < q.max_spots
      → eligible (append_entry q e) e ≡ true
  unfolding eligible append_entry
  append-eligible quiet room = ground arith

  append-promote-spot :
      has (q.objects (q.entries e).session).key (promote now (append_entry q e) e).spots ≡ true
  unfolding promote append_entry
  append-promote-spot = ground (
    arith,
    has-insert (q.objects (q.entries e).session).key (q.objects (q.entries e).session).key now
        q.spots,
    pair_beq_iff (q.objects (q.entries e).session).key (q.objects (q.entries e).session).key,
  )

append-promote-sessions :
    (now : ℕ) (q : EndpointQueue) (e : ℕ) → (promote now (append_entry q e) e).sessions ≡ q.sessions
unfolding promote append_entry
append-promote-sessions now q e = ground arith

append_entry_single :
    (q : EndpointQueue) (e : ℕ)
    → q.queue ≡ []
    → ((append_entry q e).queue ≡ e ∷ []) × ((append_entry q e).ready ≡ q.ready)
unfolding append_entry
append_entry_single q e empty = (ap (λ xs. xs ++ e ∷ []) empty, refl)

-- A request that is taken in for a session outside the dictionary, on a ready endpoint with a free spot and an empty queue, leaves such a spot behind.
pub enqueue_orphan :
    (now : ℕ) (q : EndpointQueue) (e : ℕ)
    → q.ready ≡ true
    → q.queue ≡ []
    → (q.atomic_requests ≡ true → q.inflight_total ≡ 0)
    → length q.spots < q.max_spots
    → has (q.objects (q.entries e).session).key q.sessions ≡ false
    → has (q.objects (q.entries e).session).key q.spots ≡ false
    → (q.objects (q.entries e).session).shared_spot_key ≡ none
    → (has (q.objects (q.entries e).session).key (enqueue now q e).spots ≡ true)
      × (has (q.objects (q.entries e).session).key (enqueue now q e).sessions ≡ false)
unfolding enqueue
enqueue_orphan now q e ready empty quiet room gone own shared =
    let (single, same) = append_entry_single q e empty in
    rw
      (try_promote_single now (append_entry q e) e (same ∙ ready) single
        (append-eligible now q e own shared quiet room))
      (append-promote-spot now q e own shared, rw (append-promote-sessions now q e) gone)
