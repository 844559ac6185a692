-- ===== src/Tests/Deadlines.antt =====
-- relay/queue.py: deadlines, surrender and the wait for a slot.
use Prim.Native.Nat.{max}
use openai_ipmi_proxy.Prelude.{
  ◌+◌, ◌≡◌, refl, ◌⊎◌, true, false, List, [], ◌∷◌, ◌++◌, none, some, string_eq, pair_eq, nat_eq,
}
use openai_ipmi_proxy.Prelude.Int.{pos, negsuc}
use openai_ipmi_proxy.Queue.State.{Session, EndpointQueue, busy, idle, new_session, init, new_entry}
use openai_ipmi_proxy.Queue.Lifecycle.{
  is_known, release_deadline, known_deadline, quiet_deadline, fresh_report,
}
use openai_ipmi_proxy.Queue.Deadlines.{KnownDeadline, release_deadline_lem}
use openai_ipmi_proxy.Queue.Wait.{
  Look, Outcome, timed_out, IsDecided, IsOver, wait_for_slot, wait_loop, wait_round,
  wait_for_slot-Decides,
}

abbrev idle_queue : EndpointQueue
idle_queue = init (pos 2) (negsuc 0) 120_000 300_000 false true

-- A known client that has been idle since it reported so
abbrev idle_session : Session
idle_session = record (new_session ("opencode", "s1") "chat" "10.0.0.2" "opencode/1.0" 1_000) {
  status = idle;
  spot_held = true;
  idle_since = some 50_000;
  client_status = some idle;
  client_status_at = 49_000;
}

release_deadline_lem_example :
    (idle_session.inflight ≡ 0)
    × (((is_known idle_session ≡ false)
          × (50_000
              ≡ idle_session.last_request_at
                + max idle_queue.busy_window idle_queue.session_expiry))
        ⊎ ((is_known idle_session ≡ true) × KnownDeadline idle_queue idle_session 51_000 50_000))
unfolding init new_session new_entry release_deadline known_deadline quiet_deadline fresh_report
release_deadline_lem_example = release_deadline_lem idle_queue idle_session 51_000 50_000 refl

abbrev with_session : Session → EndpointQueue
with_session s = record idle_queue {
  objects = λ r. s;
  sessions = (s.key, 0) ∷ [];
  spots = (s.key, 1_000) ∷ [];
}

abbrev quiet_stranger : EndpointQueue
quiet_stranger =
    with_session
      (record (new_session ("unknown", "a") "chat" "10.0.0.1" "curl" 1_000) { spot_held = true })

abbrev busy_client : EndpointQueue
busy_client = with_session (record idle_session {
  client_status = some busy;
  client_status_at = 899_000;
  idle_since = none;
})

abbrev held_look : Look
held_look = record { go = false; gone = false; now = 2_000 }

abbrev late_look : Look
late_look = record { go = false; gone = false; now = 11_000 }

wait_for_slot-Decides_example :
    let looks = held_look ∷ late_look ∷ [] in
    ((o : Outcome)
      → wait_for_slot (some (pos 10_000)) 1_000 looks ≡ some o
      → IsDecided (some (pos 10_000)) 1_000 looks o)
    × ((before after : List Look) (look : Look)
        → looks ≡ before ++ look ∷ after
        → IsOver (some (pos 10_000)) 1_000 look.now
        → (o : Outcome) × (wait_for_slot (some (pos 10_000)) 1_000 looks ≡ some o))
wait_for_slot-Decides_example =
    wait_for_slot-Decides (some (pos 10_000)) 1_000 (held_look ∷ late_look ∷ [])

-- The second round is after the deadline; without one the wait goes on.
times_out :
    (wait_for_slot (some (pos 10_000)) 1_000 (held_look ∷ late_look ∷ []) ≡ some timed_out)
    × (wait_for_slot (some (negsuc 0)) 1_000 (held_look ∷ late_look ∷ []) ≡ none)
unfolding wait_for_slot wait_loop wait_round
times_out = (refl, refl)
