-- ===== src/Tests/Queues.antt =====
-- relay/queue.py: an endpoint with one slot, at which one client arrives before the machine is up.
use openai_ipmi_proxy.Prelude.{
  ◌≡◌, ◌<◌, refl, true, false, [], ◌∷◌, arith, string_eq, pair_eq, nat_eq,
}
use openai_ipmi_proxy.Prelude.Tests.{pair_beq}
use openai_ipmi_proxy.Prelude.Int.{pos, negsuc}
use openai_ipmi_proxy.Prelude.Lists.{contains, find, remove}
use openai_ipmi_proxy.Prelude.Dict.{lookup, has, insert}
use openai_ipmi_proxy.Prelude.Heap.{sum_below}
use openai_ipmi_proxy.Queue.State.{EndpointQueue, new_session, new_entry, init}
use openai_ipmi_proxy.Queue.Invariant.{IsValid}
use openai_ipmi_proxy.Queue.Admission.{
  adopt_session, get_or_create_session, create_entry, append_entry, enqueue, try_promote,
  promote_loop, promote, eligible, may_run, spot_key, shared_spot, start_request, take_spot,
}
use openai_ipmi_proxy.Queue.Lifecycle.{tick}
use openai_ipmi_proxy.Queue.Validity.Waiting.{IsNew}
use openai_ipmi_proxy.Queue.Runs.{
  Reach, start, after, look_up, build, submit, probed, promotes, Reach-init-IsValid,
}
use openai_ipmi_proxy.Queue.Order.{Rounds, try_promote-Rounds}
use openai_ipmi_proxy.Queue.Running.{IsRunning, tick-IsRunning}
use openai_ipmi_proxy.Queue.Accounting.{IsCounted}
use openai_ipmi_proxy.Queue.Orphan.{enqueue_orphan}

abbrev empty_queue : EndpointQueue
empty_queue = init (pos 1) (negsuc 0) 120_000 300_000 true true

abbrev found_session : EndpointQueue
found_session = (get_or_create_session empty_queue "unknown" "a" "chat" "10.0.0.1" "curl" 1_000).0

abbrev built_entry : EndpointQueue
built_entry = (create_entry found_session 0 "/v1/chat" [] 7 1_000).0

abbrev waiting_queue : EndpointQueue
waiting_queue = enqueue 1_000 built_entry 0

abbrev ready_queue : EndpointQueue
ready_queue = record waiting_queue { ready = true }

abbrev pub running_queue : EndpointQueue
running_queue = try_promote 2_000 ready_queue

built_entry-IsNew : IsNew built_entry 0
unfolding init get_or_create_session create_entry contains lookup new_entry new_session enqueue
    try_promote promote_loop promote find remove has insert eligible may_run spot_key shared_spot
    start_request take_spot append_entry adopt_session pair_beq sum_below
built_entry-IsNew = record {
  known_entry = omega arith;
  unqueued = refl;
  undone = refl;
  tracked = refl;
}

running_queue-Reach : Reach empty_queue running_queue
running_queue-Reach =
    after
      (after
        (after
          (after (after start (look_up empty_queue "unknown" "a" "chat" "10.0.0.1" "curl" 1_000))
            (build found_session 0 "/v1/chat" [] 7 1_000))
          (submit built_entry 1_000 0 built_entry-IsNew))
        (probed waiting_queue true))
      (promotes ready_queue 2_000)

pub running_queue-IsValid : IsValid running_queue
running_queue-IsValid =
    Reach-init-IsValid (pos 1) (negsuc 0) 120_000 300_000 true true running_queue-Reach

Reach-init-IsValid_example : IsValid running_queue
Reach-init-IsValid_example =
    Reach-init-IsValid (pos 1) (negsuc 0) 120_000 300_000 true true running_queue-Reach

try_promote-Rounds_example : Rounds 2_000 ready_queue running_queue
try_promote-Rounds_example = try_promote-Rounds 2_000 ready_queue refl

running_queue-IsRunning : IsRunning ("unknown", "a") 0 running_queue
unfolding init get_or_create_session create_entry contains lookup new_entry new_session enqueue
    try_promote promote_loop promote find remove has insert eligible may_run spot_key shared_spot
    start_request take_spot append_entry adopt_session pair_beq sum_below
running_queue-IsRunning = record { key = refl; at_work = omega arith; spot = refl }

running-IsValid : IsValid running_queue
running-IsValid =
    Reach-init-IsValid (pos 1) (negsuc 0) 120_000 300_000 true true running_queue-Reach

tick-IsRunning_example : IsRunning ("unknown", "a") 0 (tick 900_000 (λ r. 900_000) running_queue).0
tick-IsRunning_example =
    tick-IsRunning 900_000 (λ r. 900_000) ("unknown", "a") 0 running_queue running-IsValid
      running_queue-IsRunning

built-IsCounted : IsCounted built_entry
unfolding init get_or_create_session create_entry contains lookup new_entry new_session enqueue
    try_promote promote_loop promote find remove has insert eligible may_run spot_key shared_spot
    start_request take_spot append_entry adopt_session pair_beq sum_below
built-IsCounted = record {
  summed = refl;
  single = λ h. omega arith;
  in_range = λ e h. ground (arith, h);
}

session_below : (built_entry.entries 0).session < built_entry.next_object
unfolding init get_or_create_session create_entry contains lookup new_entry new_session enqueue
    try_promote promote_loop promote find remove has insert eligible may_run spot_key shared_spot
    start_request take_spot append_entry adopt_session pair_beq sum_below
session_below = omega arith

running-IsCounted : IsCounted running_queue
unfolding init get_or_create_session create_entry contains lookup new_entry new_session enqueue
    try_promote promote_loop promote find remove has insert eligible may_run spot_key shared_spot
    start_request take_spot append_entry adopt_session pair_beq sum_below
running-IsCounted = record {
  summed = refl;
  single = λ h. omega arith;
  in_range = λ e h. ground (arith, h);
}

running_below : (running_queue.entries 0).session < running_queue.next_object
unfolding init get_or_create_session create_entry contains lookup new_entry new_session enqueue
    try_promote promote_loop promote find remove has insert eligible may_run spot_key shared_spot
    start_request take_spot append_entry adopt_session pair_beq
running_below = omega arith

-- A spot of a session that the dictionary does not know
abbrev orphaned : EndpointQueue
orphaned = record empty_queue { spots = (("unknown", "a"), 1_000) ∷ [] }

-- The entry whose session was forgotten while its row was written
abbrev forgotten : EndpointQueue
forgotten = record built_entry { sessions = []; ready = true }

enqueue_orphan_example :
    (has ("unknown", "a") (enqueue 1_000 forgotten 0).spots ≡ true)
    × (has ("unknown", "a") (enqueue 1_000 forgotten 0).sessions ≡ false)
unfolding init get_or_create_session create_entry contains lookup new_entry new_session enqueue
    try_promote promote_loop promote find remove has insert eligible may_run spot_key shared_spot
    start_request take_spot append_entry adopt_session pair_beq sum_below
enqueue_orphan_example =
    enqueue_orphan 1_000 forgotten 0 refl refl (λ h. refl) (omega arith) refl refl refl
