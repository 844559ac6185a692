-- ===== src/Queue/Invariant.antt =====
-- relay/queue.py: the well-formedness of an `EndpointQueue` between two operations.
use openai_ipmi_proxy.Prelude.{
  ℕ, ◌+◌, ◌≤◌, ◌<◌, ◌≡◌, Bool, true, false, Option, none, some, arith, nat_eq, string_eq, pair_eq,
  nat_beq,
}
use openai_ipmi_proxy.Prelude.Lists.{length, contains, distinct, count}
use openai_ipmi_proxy.Prelude.Dict.{keys, has, lookup}
use openai_ipmi_proxy.Prelude.Int.{ℤ}
use openai_ipmi_proxy.Queue.State.{Key, EndpointQueue, init}

-- Does entry `e` belong to the session object `r`?
abbrev pub is_entry_of : EndpointQueue → ℕ → ℕ → Bool
is_entry_of q r e = nat_beq (q.entries e).session r

-- How many entries of `r` are in the queue.
abbrev pub queued_for : EndpointQueue → ℕ → ℕ
queued_for q r = count (is_entry_of q r) q.queue

-- The session that `sessions` finds knows that it holds a spot.
abbrev pub is_held_by : EndpointQueue → Option ℕ → Bool
is_held_by q none = false
is_held_by q (some r) = (q.objects r).spot_held

pub record IsValid (q : EndpointQueue) : Type 0 where
  -- There are never more spots than allowed.
  pub spots_bounded : length q.spots ≤ q.max_spots
  pub spots_distinct : distinct (keys q.spots) ≡ true
  pub sessions_distinct : distinct (keys q.sessions) ≡ true
  pub queue_distinct : distinct q.queue ≡ true
  -- `waiting` counts the entries of the session that are in the queue.
  pub waiting_counted : (r : ℕ) → (q.objects r).waiting_count ≡ queued_for q r
  pub pending : (e : ℕ) → contains q.queue e ≡ true → (q.entries e).done ≡ false
  -- The dictionary files a session under its own key.
  pub filed : (k : Key) (r : ℕ) → lookup k q.sessions ≡ some r → (q.objects r).key ≡ k
  -- A session with requests is in the dictionary: there is one object for each key.
  pub live_tracked :
      (r : ℕ)
      → 0 < (q.objects r).waiting_count + (q.objects r).inflight
      → lookup (q.objects r).key q.sessions ≡ some r
  -- A spot belongs to a session in the dictionary that knows it, and the other way round.
  pub spots_owned : (k : Key) → has k q.spots ≡ true → is_held_by q (lookup k q.sessions) ≡ true
  pub held_spots :
      (k : Key) (r : ℕ)
      → lookup k q.sessions ≡ some r
      → (q.objects r).spot_held ≡ true
      → has k q.spots ≡ true
  -- References that are still to be given out name nothing.
  pub fresh_entries : (e : ℕ) → contains q.queue e ≡ true → e < q.next_entry
  pub fresh : (k : Key) (r : ℕ) → lookup k q.sessions ≡ some r → r < q.next_object

pub init-IsValid :
    (max_spots max_inflight : ℤ) (busy_window session_expiry : ℕ) (atomic immediate : Bool)
    → IsValid (init max_spots max_inflight busy_window session_expiry atomic immediate)
unfolding init distinct count contains lookup has
init-IsValid max_spots max_inflight busy_window session_expiry atomic immediate = ground arith
