-- ===== src/Queue/Promotion.antt =====
-- relay/queue.py: what `_try_promote` guarantees.
use openai_ipmi_proxy.Prelude.{
  ℕ, zero, suc, ◌≤◌, ◌≡◌, refl, ap, inl, inr, Bool, none, some, List, [], ◌∷◌, arith, nat_eq,
  string_eq, pair_eq, Option-cases, Bool-cases,
}
use openai_ipmi_proxy.Prelude.Lists.{
  length, find, remove, length-remove, contains_of_find, find_holds,
}
use openai_ipmi_proxy.Prelude.Dict.{length-insert}
use openai_ipmi_proxy.Queue.State.{EndpointQueue}
use openai_ipmi_proxy.Queue.Admission.{eligible, promote, first_eligible, promote_loop, try_promote}

-- What every round of the loop keeps, the loop keeps.
pub promote_loop_inv {ℓ} :
    (P : EndpointQueue → Type ℓ) (now : ℕ)
    → ((q : EndpointQueue) (e : ℕ) → first_eligible q ≡ some e → P q → P (promote now q e))
    → (fuel : ℕ) (q : EndpointQueue) → P q
    → P (promote_loop fuel now q)
unfolding promote_loop
promote_loop_inv P now keep zero q h = h
promote_loop_inv P now keep (suc fuel) q h = elim (Option-cases (first_eligible q)) [
  | inl stop ↦ rw (stop, promote_loop) h
  | inr (e, found) ↦
      rw (found, promote_loop)
        (promote_loop_inv P now keep fuel (promote now q e) (keep q e found h))
]

pub try_promote_inv {ℓ} :
    (P : EndpointQueue → Type ℓ) (now : ℕ)
    → ((q : EndpointQueue) (e : ℕ) → first_eligible q ≡ some e → P q → P (promote now q e))
    → (q : EndpointQueue) → P q
    → P (try_promote now q)
unfolding try_promote
try_promote_inv P now keep q h = elim (Bool-cases q.ready) [
  | inl up ↦ simp up (promote_loop_inv P now keep (length q.queue) q h)
  | inr down ↦ simp down h
]

pub promote-queue :
    (now : ℕ) (q : EndpointQueue) (e : ℕ) → (promote now q e).queue ≡ remove e q.queue
unfolding promote
promote-queue now q e = ground arith

find_empty : (p : ℕ → Bool) (xs : List ℕ) → length xs ≤ 0 → find p xs ≡ none
unfolding find
find_empty p [] h = refl
find_empty p (x ∷ xs) h = absurd (omega arith)

-- The loop ends by its own test.
pub promote_loop_done :
    (fuel now : ℕ) (q : EndpointQueue)
    → length q.queue ≤ fuel
    → first_eligible (promote_loop fuel now q) ≡ none
unfolding promote_loop
promote_loop_done zero now q h = find_empty (eligible q) q.queue h
promote_loop_done (suc fuel) now q h = elim (Option-cases (first_eligible q)) [
  | inl stop ↦ rw (stop, promote_loop) stop
  | inr (e, found) ↦
      rw (found, promote_loop)
        (promote_loop_done fuel now (promote now q e) (
          omega (
            arith,
            ap length (promote-queue now q e),
            length-remove e q.queue (contains_of_find (eligible q) q.queue e found),
          )))
]

pub promote-spots_bounded :
    (now : ℕ) (q : EndpointQueue) (e : ℕ)
    → first_eligible q ≡ some e
    → length q.spots ≤ q.max_spots
    → length (promote now q e).spots ≤ (promote now q e).max_spots
unfolding promote eligible
promote-spots_bounded now q e h b = ground (
  arith,
  find_holds (eligible q) q.queue e h,
  length-insert (q.objects (q.entries e).session).key now q.spots,
)

-- The fields that the operations only read.
pub record SameConfig (q p : EndpointQueue) : Type 0 where
  pub max_spots : q.max_spots ≡ p.max_spots
  pub max_inflight : q.max_inflight_per_session ≡ p.max_inflight_per_session
  pub atomic : q.atomic_requests ≡ p.atomic_requests
  pub ready : q.ready ≡ p.ready
  pub sessions : q.sessions ≡ p.sessions

promote-SameConfig : (now : ℕ) (q : EndpointQueue) (e : ℕ) → SameConfig (promote now q e) q
unfolding promote
promote-SameConfig now q e = ground arith

pub try_promote-SameConfig : (now : ℕ) (q : EndpointQueue) → SameConfig (try_promote now q) q
try_promote-SameConfig now q =
    try_promote_inv (λ p. SameConfig p q) now
      (λ p e found h. ground (arith, promote-SameConfig now p e)) q (ground arith)
