-- ===== src/Queue/Validity/Tick.antt =====
-- relay/queue.py: `tick` keeps the queue well formed.
use openai_ipmi_proxy.Prelude.{
  ℕ, ◌≡◌, refl, inl, inr, true, false, some, List, [], ◌∷◌, arith, nat_eq, string_eq, pair_eq,
  Bool-cases,
}
use openai_ipmi_proxy.Prelude.Lists.{contains, distinct}
use openai_ipmi_proxy.Prelude.Dict.{keys, lookup, pop}
use openai_ipmi_proxy.Queue.State.{Key, EndpointQueue}
use openai_ipmi_proxy.Queue.Invariant.{IsValid}
use openai_ipmi_proxy.Prelude.Lists.{All}
use openai_ipmi_proxy.Prelude.Dict.{IsStored, All-IsStored, IsStored-pop}
use openai_ipmi_proxy.Queue.Admission.{set_session}
use openai_ipmi_proxy.Queue.Promotion.{try_promote-SameConfig}
use openai_ipmi_proxy.Queue.Lifecycle.{
  is_dormant, drop_spot, release_spot, refresh_status, ReleaseReason, TickState, expire_session,
  tick_session, tick_loop, tick, release_deadline, is_due,
}
use openai_ipmi_proxy.Queue.Validity.Write.{write-IsValid}
use openai_ipmi_proxy.Queue.Validity.Spots.{release_spot-IsValid, forget-IsValid}

refresh-IsValid :
    (now : ℕ) (q : EndpointQueue) (r : ℕ)
    → IsValid q
    → IsValid (set_session q r (refresh_status q.busy_window (q.objects r) now))
refresh-IsValid now q r v =
    write-IsValid q r q.inflight_total (refresh_status q.busy_window (q.objects r) now)
      (unfold refresh_status in refl) (unfold refresh_status in refl)
      (unfold refresh_status in omega arith) (unfold refresh_status in refl) v

-- What the end of a step does to the dictionary: nothing, or it takes the key out.
pub data Forgets (key : Key) (before after : List (Key × ℕ)) : Type 0 where
  keeps : after ≡ before → Forgets key before after
  drops : after ≡ pop key before → Forgets key before after

module _ (now later : ℕ) (q : EndpointQueue) (released : List (Key × ReleaseReason)) (key : Key)
    (r : ℕ) where
  release_spot-Forgets : Forgets key q.sessions (release_spot later q r key).sessions
  unfolding release_spot drop_spot
  release_spot-Forgets =
      let same = try_promote-SameConfig later (drop_spot q r key) in
      elim (Bool-cases (is_dormant (q.objects r))) [
        | inl dormant ↦ drops (ground (arith, same.sessions))
        | inr live ↦ keeps (ground (arith, same.sessions))
      ]

  expire_session-IsValid :
      lookup key q.sessions ≡ some r
      → IsValid q
      → IsValid (expire_session now later (q, released) key r).0
        × Forgets key q.sessions (expire_session now later (q, released) key r).0.sessions
  unfolding expire_session
  expire_session-IsValid tracked v = elim (Bool-cases (q.objects r).spot_held) [
    | inl held ↦ elim (Bool-cases (is_due now (release_deadline q (q.objects r) now))) [
      | inl due ↦
          simp (held, due) (release_spot-IsValid q r key tracked v later, release_spot-Forgets)
      | inr early ↦ simp (held, early) (v, keeps refl)
    ]
    | inr free ↦ elim (Bool-cases (is_dormant (q.objects r))) [
      | inl dormant ↦
          simp (free, dormant) (forget-IsValid q r key tracked v dormant free, drops refl)
      | inr live ↦ simp (free, live) (v, keeps refl)
    ]
  ]

module _ (now later : ℕ) (st : TickState) (key : Key) (r : ℕ) where
  pub tick_session-IsValid :
      lookup key st.0.sessions ≡ some r
      → IsValid st.0
      → IsValid (tick_session now later st key r).0
        × Forgets key st.0.sessions (tick_session now later st key r).0.sessions
  unfolding tick_session
  tick_session-IsValid tracked v =
      expire_session-IsValid now later
        (set_session st.0 r (refresh_status st.0.busy_window (st.0.objects r) now)) st.1 key r
        tracked (refresh-IsValid now st.0 r v)

pub IsStored-Forgets :
    (key : Key) (before after items : List (Key × ℕ))
    → Forgets key before after
    → distinct (keys before) ≡ true
    → contains (keys items) key ≡ false
    → All (IsStored before) items
    → All (IsStored after) items
IsStored-Forgets key before after items (keeps same) d fresh h = rw same h
IsStored-Forgets key before after items (drops popped) d fresh h =
    rw popped (IsStored-pop key before items d fresh h)

tick_loop-IsValid :
    (now : ℕ) (clock : ℕ → ℕ) (items : List (Key × ℕ)) (st : TickState)
    → distinct (keys items) ≡ true
    → All (IsStored st.0.sessions) items
    → IsValid st.0
    → IsValid (tick_loop now clock items st).0
unfolding tick_loop distinct
tick_loop-IsValid now clock [] st d h v = v
tick_loop-IsValid now clock ((key, r) ∷ items) st d h v =
    let (v', gone) = tick_session-IsValid now (clock r) st key r h.0 v in
    tick_loop-IsValid now clock items (tick_session now (clock r) st key r) (ground arith)
      (IsStored-Forgets key st.0.sessions _ items gone v.sessions_distinct (ground arith) h.1) v'

pub tick-IsValid :
    (now : ℕ) (clock : ℕ → ℕ) (q : EndpointQueue) → IsValid q → IsValid (tick now clock q).0
unfolding tick
tick-IsValid now clock q v =
    tick_loop-IsValid now clock q.sessions (q, []) v.sessions_distinct
      (All-IsStored q.sessions v.sessions_distinct) v
