-- ===== src/Queue/Running.antt =====
-- relay/queue.py: a session at work keeps its spot through `tick`, and a spot that no session in the
-- dictionary holds is never given back.
use openai_ipmi_proxy.Prelude.{
  ℕ, ◌≤◌, ◌<◌, ◌≡◌, ◌∙◌, ◌≢◌, inl, inr, true, false, Option, some, List, [], ◌∷◌, arith, nat_eq,
  string_eq, pair_eq, Bool-cases,
}
use openai_ipmi_proxy.Prelude.Lists.{distinct}
use openai_ipmi_proxy.Prelude.Dict.{keys, has, lookup, has-insert, has-pop_ne}
use openai_ipmi_proxy.Queue.State.{Key, Session, EndpointQueue}
use openai_ipmi_proxy.Queue.Invariant.{IsValid}
use openai_ipmi_proxy.Queue.Admission.{set_session, promote, try_promote}
use openai_ipmi_proxy.Prelude.Lists.{All}
use openai_ipmi_proxy.Prelude.Dict.{IsStored, All-IsStored}
use openai_ipmi_proxy.Queue.Validity.Tick.{tick_session-IsValid, IsStored-Forgets}
use openai_ipmi_proxy.Queue.Promotion.{try_promote_inv}
use openai_ipmi_proxy.Queue.Lifecycle.{
  drop_spot, release_spot, release_deadline, ReleaseReason, refresh_status, is_due, is_dormant,
  TickState, expire_session, tick_session, tick_loop, tick,
}

pub promote-keeps :
    (now : ℕ) (q : EndpointQueue) (e : ℕ) (k : Key)
    → has k q.spots ≡ true
    → has k (promote now q e).spots ≡ true
unfolding promote
promote-keeps now q e k h =
    ground (arith, has-insert (q.objects (q.entries e).session).key k now q.spots)

promote-runs :
    (now : ℕ) (q : EndpointQueue) (e r : ℕ)
    → (q.objects r).inflight ≤ ((promote now q e).objects r).inflight
unfolding promote
promote-runs now q e r = ground arith

promote-key :
    (now : ℕ) (q : EndpointQueue) (e r : ℕ) → ((promote now q e).objects r).key ≡ (q.objects r).key
unfolding promote
promote-key now q e r = ground arith

-- A session at work, with the spot that it runs on.
pub record IsRunning (k : Key) (r : ℕ) (q : EndpointQueue) : Type 0 where
  pub key : (q.objects r).key ≡ k
  pub at_work : 0 < (q.objects r).inflight
  pub spot : has k q.spots ≡ true

pub try_promote-IsRunning :
    (now : ℕ) (k : Key) (r : ℕ) (q : EndpointQueue)
    → IsRunning k r q
    → IsRunning k r (try_promote now q)
try_promote-IsRunning now k r q =
    try_promote_inv (IsRunning k r) now
      (λ p e found h. record {
        key = promote-key now p e r ∙ h.key;
        at_work = omega (arith, promote-runs now p e r, h.at_work);
        spot = promote-keeps now p e k h.spot;
      })
      q

drop_spot-IsRunning :
    (k key : Key) (r x : ℕ) (q : EndpointQueue)
    → key ≢ k
    → IsRunning k r q
    → IsRunning k r (drop_spot q x key)
unfolding drop_spot
drop_spot-IsRunning k key r x q other h = record {
  key = ground (arith, h.key);
  at_work = ground (arith, h.at_work);
  spot = has-pop_ne key k q.spots other ∙ h.spot;
}

refresh-IsRunning :
    (now : ℕ) (k : Key) (r x : ℕ) (q : EndpointQueue)
    → IsRunning k r q
    → IsRunning k r (set_session q x (refresh_status q.busy_window (q.objects x) now))
unfolding refresh_status
refresh-IsRunning now k r x q h = record {
  key = ground (arith, h.key);
  at_work = ground (arith, h.at_work);
  spot = h.spot;
}

-- A session at work has no deadline.
running_deadline :
    (q : EndpointQueue) (s : Session) (now : ℕ)
    → 0 < s.inflight
    → is_due now (release_deadline q s now) ≡ false
unfolding release_deadline
running_deadline q s now h = ground arith

module _ (now later : ℕ) (k key : Key) (r x : ℕ) (q : EndpointQueue)
    (released : List (Key × ReleaseReason)) (filed : (q.objects x).key ≡ key)
    (one : key ≡ k → x ≡ r) (h : IsRunning k r q) where
  expire_session-IsRunning : IsRunning k r (expire_session now later (q, released) key x).0
  unfolding expire_session
  expire_session-IsRunning = elim (Bool-cases (q.objects x).spot_held) [
    | inl held ↦ elim (Bool-cases (is_due now (release_deadline q (q.objects x) now))) [
      | inl due ↦
          simp (held, due)
            (unfold release_spot in
              try_promote-IsRunning later k r (drop_spot q x key) (
                drop_spot-IsRunning k key r x q
                  (λ same. cc (due, running_deadline q (q.objects r) now h.at_work, one same)) h))
      | inr early ↦ simp (held, early) h
    ]
    | inr free ↦ elim (Bool-cases (is_dormant (q.objects x))) [
      | inl dormant ↦
          simp (free, dormant) (record { key = h.key; at_work = h.at_work; spot = h.spot })
      | inr live ↦ simp (free, live) h
    ]
  ]

some_injective : {a b : ℕ} (o : Option ℕ) → o ≡ some a → o ≡ some b → a ≡ b
some_injective o p q = cc

module _ (now later : ℕ) (k key : Key) (r x : ℕ) (st : TickState)
    (stored : lookup key st.0.sessions ≡ some x) (v : IsValid st.0) (h : IsRunning k r st.0) where
  only_one : key ≡ k → x ≡ r
  only_one same =
      some_injective (lookup key st.0.sessions) stored
        (cc (v.live_tracked r (omega (arith, h.at_work)), h.key))

  tick_session-IsRunning : IsRunning k r (tick_session now later st key x).0
  unfolding tick_session
  tick_session-IsRunning =
      expire_session-IsRunning now later k key r x
        (set_session st.0 x (refresh_status st.0.busy_window (st.0.objects x) now)) st.1
        (unfold refresh_status in ground (arith, v.filed key x stored)) only_one
        (refresh-IsRunning now k r x st.0 h)

tick_loop-IsRunning :
    (now : ℕ) (clock : ℕ → ℕ) (k : Key) (r : ℕ) (items : List (Key × ℕ)) (st : TickState)
    → distinct (keys items) ≡ true
    → All (IsStored st.0.sessions) items
    → IsValid st.0
    → IsRunning k r st.0
    → IsRunning k r (tick_loop now clock items st).0
unfolding tick_loop distinct
tick_loop-IsRunning now clock k r [] st d all v h = h
tick_loop-IsRunning now clock k r ((key, x) ∷ items) st d all v h =
    let (v', gone) = tick_session-IsValid now (clock x) st key x all.0 v in
    tick_loop-IsRunning now clock k r items (tick_session now (clock x) st key x) (ground arith)
      (IsStored-Forgets key st.0.sessions _ items gone v.sessions_distinct (ground arith) all.1) v'
      (tick_session-IsRunning now (clock x) k key r x st all.0 v h)

-- On a well-formed queue, `tick` takes no spot from a session with a request in flight: the session keeps its key and its request, and the spot stays in its name.
pub tick-IsRunning :
    (now : ℕ) (clock : ℕ → ℕ) (k : Key) (r : ℕ) (q : EndpointQueue)
    → IsValid q
    → IsRunning k r q
    → IsRunning k r (tick now clock q).0
unfolding tick
tick-IsRunning now clock k r q v h =
    tick_loop-IsRunning now clock k r q.sessions (q, []) v.sessions_distinct
      (All-IsStored q.sessions v.sessions_distinct) v h
