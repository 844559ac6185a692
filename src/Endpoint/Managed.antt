-- ===== src/Endpoint/Managed.antt =====
-- What a whole tick of the queue manager keeps, whatever its clients answer and the other tasks do meanwhile.
use openai_ipmi_proxy.Prelude.{
  ℕ, ◌+◌, ◌≡◌, refl, arith, String, Bool, true, false, List, [], ◌∷◌, Option, none, if◌then◌else◌,
  string_eq, pair_eq, Bool-cases, inl, inr, leb,
}
use openai_ipmi_proxy.Prelude.Lists.{length, find}
use openai_ipmi_proxy.Prelude.Dict.{values}
use openai_ipmi_proxy.Prelude.Value.{Value}
use openai_ipmi_proxy.Power.Backend.{PowerBackend}
use openai_ipmi_proxy.Queue.State.{EndpointQueue}
use openai_ipmi_proxy.Queue.Admission.{try_promote, eligible, first_eligible}
use openai_ipmi_proxy.Queue.Lifecycle.{tick, is_nonempty}
use openai_ipmi_proxy.Server.Runtime.{is_on}
use openai_ipmi_proxy.Queue.Promotion.{promote_loop_done}
use openai_ipmi_proxy.Queue.Invariant.{IsValid}
use openai_ipmi_proxy.Queue.Validity.Tick.{tick-IsValid}
use openai_ipmi_proxy.Queue.Validity.Promote.{try_promote-IsValid}
use openai_ipmi_proxy.Endpoint.Readiness.{EndpointRuntime, manage_wake, manage_waiting}
use openai_ipmi_proxy.Endpoint.Manager.{
  Outside, group, poll_machines, Managed, Clocks, queue_manager_tick,
}
use openai_ipmi_proxy.Endpoint.Polled.{poll_machines-IsValid}

-- Nothing that may run still waits.
abbrev pub IsServed : EndpointQueue → Type 0
IsServed q = q.ready ≡ true → first_eligible q ≡ none

try_promote-IsServed : (now : ℕ) (q : EndpointQueue) → q.ready ≡ true → IsServed (try_promote now q)
unfolding try_promote
try_promote-IsServed now q ready =
    simp ready (λ still. promote_loop_done (length q.queue) now q (omega arith))

module _ {B : Type 0} (api : PowerBackend B)
    (probed meanwhile : EndpointRuntime B → EndpointRuntime B)
    (probe : (e : EndpointRuntime B) → IsValid e.queue → IsValid (probed e).queue)
    (woken : (e : EndpointRuntime B) → IsValid e.queue → IsValid (meanwhile e).queue) where
  manage_wake-IsValid :
      (now : ℕ) (uuid : String) (e : EndpointRuntime B)
      → IsValid e.queue
      → IsValid (manage_wake api now uuid meanwhile e).queue
  unfolding manage_wake
  manage_wake-IsValid now uuid e v = elim (Bool-cases e.queue.ready) [
    | inl ready ↦ simp ready v
    | inr waits ↦ elim (Bool-cases (is_on e.server.power_state)) [
      | inl runs ↦ simp (waits, runs) v
      | inr off ↦ simp (waits, off) (woken _ v)
    ]
  ]

  -- The queue after the waiting entries were promoted, if it is ready
  abbrev promoted : ℕ → EndpointQueue → EndpointQueue
  promoted now q = if q.ready then try_promote now q else q

  promoted-IsValid :
      (now : ℕ) (q : EndpointQueue)
      → IsValid q
      → IsValid (promoted now q) × IsServed (promoted now q)
  promoted-IsValid now q v = elim (Bool-cases q.ready) [
    | inl ready ↦ simp ready (try_promote-IsValid now q v, try_promote-IsServed now q ready)
    | inr waits ↦ simp waits (v, (λ ready. absurd (ground (arith, ready, waits))))
  ]

  probed-IsValid :
      (due : Bool) (e : EndpointRuntime B)
      → IsValid e.queue
      → IsValid (if due then probed e else e).queue
  probed-IsValid true e v = probe e v
  probed-IsValid false e v = v

  find_nothing : (p : ℕ → Bool) (xs : List ℕ) → is_nonempty xs ≡ false → find p xs ≡ none
  unfolding find
  find_nothing p [] empty = refl
  find_nothing p (x ∷ xs) empty = absurd (ground (arith, empty))

  manage_waiting-IsValid :
      (now wake_at later : ℕ) (uuid : String) (last_check : ℕ) (e : EndpointRuntime B)
      → IsValid e.queue
      → let q = (manage_waiting api now wake_at later uuid probed meanwhile last_check e).0.queue in
        IsValid q × IsServed q
  unfolding manage_waiting
  manage_waiting-IsValid now wake_at later uuid last_check e v =
      elim (Bool-cases (is_nonempty e.queue.queue)) [
        | inl waiting ↦
            let checked : EndpointRuntime B = if leb (last_check + 2000) now then probed e else e in
            simp waiting (
              promoted-IsValid later (manage_wake api wake_at uuid meanwhile checked).queue (
                manage_wake-IsValid wake_at uuid checked
                  (probed-IsValid (leb (last_check + 2000) now) e v)))
        | inr idle ↦ simp idle (v, (λ ready. find_nothing (eligible e.queue) e.queue.queue idle))
      ]

  -- A tick of the queue manager keeps the queue well formed, and leaves no entry waiting that may run, whatever the clients answer or fail to answer, and whatever the clocks say. It needs that the other tasks, while the tick waits for an answer, for the probe or for a wake, keep the queue well formed.
  pub queue_manager_tick-IsServed :
      (attempt : Option Value → String) (outside : Outside) (now : ℕ) (clocks : Clocks)
      (last_check : ℕ) (m : Managed B)
      → ((base key : String) (q : EndpointQueue)
          → IsValid q
          → IsValid (outside.meanwhile base key q))
      → IsValid m.endpoint.queue
      → let q =
          (queue_manager_tick api attempt outside now clocks probed meanwhile last_check
            m).0.endpoint.queue in
        IsValid q × IsServed q
  unfolding queue_manager_tick
  queue_manager_tick-IsServed attempt outside now clocks last_check m others v =
      let q = m.endpoint.queue in
      let bases = group attempt outside m.pollers q (values q.sessions) [] in
      let polled = (poll_machines attempt outside now bases m.pollers q).1 in
      manage_waiting-IsValid now clocks.wake_at clocks.promoted clocks.uuid last_check
        (record m.endpoint { queue = (tick now clocks.released polled).0 })
        (tick-IsValid now clocks.released polled
          (poll_machines-IsValid attempt outside others now bases m.pollers q v))
