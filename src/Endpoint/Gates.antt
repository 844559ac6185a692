-- ===== src/Endpoint/Gates.antt =====
-- relay/endpoints.py: what the readiness gate, the admission and the rejection of a request guarantee.
use openai_ipmi_proxy.Prelude.{
  ℕ, ◌+◌, ◌<◌, ◌≡◌, refl, ◌∙◌, ap, ◌≢◌, inl, inr, String, true, false, List, [], ◌∷◌, ◌++◌, Option,
  none, some, arith, Bool-cases, nat_eq, string_eq, pair_eq,
}
use openai_ipmi_proxy.Prelude.Lists.{length, contains, length-append}
use openai_ipmi_proxy.Prelude.Dict.{lookup}
use openai_ipmi_proxy.Queue.State.{EndpointQueue, new_entry}
use openai_ipmi_proxy.Queue.Invariant.{IsValid}
use openai_ipmi_proxy.Queue.Admission.{get_or_create_session, create_entry}
use openai_ipmi_proxy.Queue.Wait.{Outcome, admitted, disconnected, timed_out, deadline_of}
use openai_ipmi_proxy.Queue.Validity.Write.{create_entry-IsValid}
use openai_ipmi_proxy.Queue.Validity.Waiting.{IsNew, enqueue-IsValid}
use openai_ipmi_proxy.Power.Backend.{PowerBackend}
use openai_ipmi_proxy.Server.Runtime.{ServerRuntime, is_on, note_service_ready, set_state}
use openai_ipmi_proxy.Endpoint.Readiness.{
  EndpointRuntime, is_healthy, check_readiness, ensure_wake, Round, hold, wait_until_ready,
  endpoint_active,
}
use openai_ipmi_proxy.Endpoint.Admission.{
  not_ready, forwarded, rejected, probe_if_empty, forward_if_admitted, admit_unqueued, Arrival,
  register, settle,
}
use openai_ipmi_proxy.Endpoint.Settled.{Settles, settle_entry}

below_self : (n : ℕ) → n < n → ⊥
below_self n h = omega (arith, h)

length_snoc : {A : Type 0} (xs : List A) (x : A) → length (xs ++ x ∷ []) ≡ length xs + 1
length_snoc xs x = length-append xs (x ∷ [])

note_service_ready-on :
    {B : Type 0} (now : ℕ) (s : ServerRuntime B)
    → is_on (note_service_ready now s).power_state ≡ true
unfolding note_service_ready set_state
note_service_ready-on now s = ground arith

module _ {B : Type 0} where
  -- After a probe the queue is ready exactly when the answer is a healthy status, and the probe says so. The store is told once if that changed and not at all otherwise, and an endpoint that becomes ready implies that its server is on.
  pub check_readiness_lem :
      (probe : Option ℕ) (wall later now : ℕ) (e : EndpointRuntime B)
      → let (ok, e') = check_readiness probe wall later now e in
        (ok ≡ is_healthy e.healthy_statuses probe)
        × (e'.queue.ready ≡ ok)
        × (ok ≡ e.queue.ready → e'.rows ≡ e.rows)
        × (ok ≢ e.queue.ready → length e'.rows ≡ length e.rows + 1)
        × (e.queue.ready ≡ false → ok ≡ true → is_on e'.server.power_state ≡ true)
        × (ok ≡ false → e'.server ≡ e.server)
  unfolding check_readiness
  check_readiness_lem probe wall later now e =
      grind (arith, note_service_ready-on now e.server, length_snoc)

module _ {B : Type 0} (api : PowerBackend B) where
  hold-ready :
      (deadline : Option ℕ) (rounds : List (Round api)) (e : EndpointRuntime B)
      → (hold api deadline rounds e).0 ≡ some admitted
      → (hold api deadline rounds e).1.queue.ready ≡ true
  unfolding hold
  hold-ready deadline [] e h = ground (arith, h)
  hold-ready deadline (round ∷ rounds) e h = ground (
    arith,
    h,
    hold-ready deadline rounds (ensure_wake api round.wake_at round.uuid (round.others e)),
  )

  waited-ready :
      (e : EndpointRuntime B) (now : ℕ) (rounds : List (Round api))
      → (wait_until_ready api e.queue_timeout now rounds e).0 ≡ some admitted
      → (wait_until_ready api e.queue_timeout now rounds e).1.queue.ready ≡ true
  unfolding wait_until_ready
  waited-ready e now rounds h = hold-ready (deadline_of e.queue_timeout now) rounds e h

  forward_if_admitted-ready :
      (o : Option Outcome) (e : EndpointRuntime B)
      → (o ≡ some admitted → e.queue.ready ≡ true)
      → (forward_if_admitted api (o, e)).0 ≡ forwarded
      → ((forward_if_admitted api (o, e)).1.queue.ready ≡ true)
        × (endpoint_active (forward_if_admitted api (o, e)).1 ≡ true)
  unfolding forward_if_admitted endpoint_active
  forward_if_admitted-ready none e ready h = ground (arith, h)
  forward_if_admitted-ready (some admitted) e ready h = ground (arith, ready refl)
  forward_if_admitted-ready (some disconnected) e ready h = ground (arith, h)
  forward_if_admitted-ready (some timed_out) e ready h = ground (arith, h)

  -- An unqueued request is forwarded only while its endpoint is ready, whatever happens between the rounds of its hold; and from then on the endpoint counts as active. Under the policy that refuses, a request that finds the endpoint not ready after the probe is refused and changes nothing.
  pub admit_unqueued_lem :
      (probed : EndpointRuntime B → EndpointRuntime B) (now : ℕ) (rounds : List (Round api))
      (e : EndpointRuntime B)
      → let (verdict, e') = admit_unqueued api probed now rounds e in
        let gated = probe_if_empty probed e in
        (verdict ≡ forwarded → (e'.queue.ready ≡ true) × (endpoint_active e' ≡ true))
        × (gated.queue.ready ≡ false
            → gated.errors_when_not_ready ≡ true
            → (verdict ≡ not_ready) × (e' ≡ gated))
  unfolding admit_unqueued
  admit_unqueued_lem probed now rounds e =
      let gated = probe_if_empty probed e in
      let waited = wait_until_ready api gated.queue_timeout now rounds gated in
      elim (Bool-cases gated.queue.ready) [
        | inl ready ↦
            ground (arith, ready, forward_if_admitted-ready (some admitted) gated (λ h. ready))
        | inr booting ↦ elim (Bool-cases gated.errors_when_not_ready) [
          | inl errors ↦ ground (arith, booting, errors)
          | inr waits ↦ ground (
            arith,
            booting,
            waits,
            forward_if_admitted-ready waited.0 waited.1 (λ h. waited-ready gated now rounds h),
          )
        ]
      ]

-- A queued request of a well-formed queue that is not admitted, because its client left or its time was up, is rejected for that reason and not in the queue afterwards. An entry that still waits leaves the queue and takes nothing else with it. A slot that was granted in the same instant is given back: one request less of its session is in flight, and the queue promotes.
pub settle-removes :
    (now later : ℕ) (outcome : Outcome) (entry : ℕ) (q : EndpointQueue)
    → IsValid q
    → outcome ≢ admitted
    → let (verdict, after) = settle now later outcome entry q in
      (verdict ≡ rejected outcome) × Settles now later entry q after
unfolding settle
settle-removes now later admitted entry q v h = absurd (h refl)
settle-removes now later disconnected entry q v h = (refl, settle_entry now later entry q v)
settle-removes now later timed_out entry q v h = (refl, settle_entry now later entry q v)

new_unqueued : (q : EndpointQueue) → IsValid q → contains q.queue q.next_entry ≡ false
new_unqueued q v = elim (Bool-cases (contains q.queue q.next_entry)) [
  | inl queued ↦ absurd (below_self q.next_entry (v.fresh_entries q.next_entry queued))
  | inr unqueued ↦ unqueued
]

created-IsNew :
    (q : EndpointQueue) (session : ℕ) (path : String) (body : List ℕ) (request now : ℕ)
    → IsValid q
    → lookup (q.objects session).key q.sessions ≡ some session
    → let (p, e) = create_entry q session path body request now in IsNew p e
unfolding create_entry new_entry
created-IsNew q session path body request now v tracked = record {
  known_entry = omega arith;
  unqueued = new_unqueued q v;
  undone = ground arith;
  tracked = ground (arith, tracked);
}

-- The registration of a request keeps the queue valid, if what happens while the session's row is written keeps it valid and leaves the session in the dictionary.
pub register-IsValid :
    (others : EndpointQueue → EndpointQueue) (now enqueued_at later : ℕ) (a : Arrival)
    (q : EndpointQueue)
    → let (found, session) =
        get_or_create_session q a.client a.session_id a.api_name a.client_ip a.user_agent now in
      IsValid (others found)
      → lookup (a.client, a.session_id) (others found).sessions ≡ some session
      → IsValid (register others now enqueued_at later a q).0
unfolding register
register-IsValid others now enqueued_at later a q v tracked =
    let (found, session) =
      get_or_create_session q a.client a.session_id a.api_name a.client_ip a.user_agent now in
    let p = others found in
    let (built, entry) = create_entry p session a.path a.body a.request enqueued_at in
    enqueue-IsValid later built entry
      (created-IsNew p session a.path a.body a.request enqueued_at v (
        ap (λ k. lookup k p.sessions) (v.filed (a.client, a.session_id) session tracked) ∙ tracked))
      (create_entry-IsValid p session a.path a.body a.request enqueued_at v)
