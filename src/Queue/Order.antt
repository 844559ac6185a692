-- ===== src/Queue/Order.antt =====
-- relay/queue.py: `_try_promote` against its specification, a first-in first-out discipline.
use openai_ipmi_proxy.Prelude.{
  ℕ, zero, suc, ◌≤◌, ◌≡◌, ap, inl, inr, true, false, List, [], ◌∷◌, ◌++◌, arith, nat_eq, string_eq,
  pair_eq, nat_beq, Option-cases, Bool-cases,
}
use openai_ipmi_proxy.Prelude.Lists.{length, contains_of_find, remove, length-remove}
use openai_ipmi_proxy.Queue.State.{EndpointQueue}
use openai_ipmi_proxy.Prelude.Lists.{All, find_split, All-find}
use openai_ipmi_proxy.Queue.Admission.{eligible, promote, first_eligible, promote_loop, try_promote}
use openai_ipmi_proxy.Queue.Promotion.{promote-queue, promote_loop_done, try_promote_inv}

-- What is promised: one entry after another leaves the queue for the model, each time the oldest
-- of those that may run, until none may.
pub data Rounds (now : ℕ) : EndpointQueue → EndpointQueue → Type 0 where
  rest : {q : EndpointQueue} → All (λ e. eligible q e ≡ false) q.queue → Rounds now q q
  serve :
      {q p : EndpointQueue} (before after : List ℕ) (e : ℕ)
      → q.queue ≡ before ++ e ∷ after
      → All (λ x. eligible q x ≡ false) before
      → eligible q e ≡ true
      → Rounds now (promote now q e) p
      → Rounds now q p

promote_loop-Rounds :
    (fuel now : ℕ) (q : EndpointQueue)
    → length q.queue ≤ fuel
    → Rounds now q (promote_loop fuel now q)
unfolding promote_loop
promote_loop-Rounds zero now q h =
    rest (All-find (eligible q) q.queue (promote_loop_done 0 now q h))
promote_loop-Rounds (suc fuel) now q h = elim (Option-cases (first_eligible q)) [
  | inl none_left ↦ rw (none_left, promote_loop) (rest (All-find (eligible q) q.queue none_left))
  | inr (e, found) ↦
      let (before, after, parts, fails, passes) = find_split (eligible q) q.queue e found in
      rw (found, promote_loop)
        (serve before after e parts fails passes (
          promote_loop-Rounds fuel now (promote now q e) (
            omega (
              arith,
              ap length (promote-queue now q e),
              length-remove e q.queue (contains_of_find (eligible q) q.queue e found),
            ))))
]

-- On a ready endpoint `_try_promote` takes entries out of the queue one after another, each time the first in the queue that may run while all before it may not, and stops only when no entry left may run.
pub try_promote-Rounds :
    (now : ℕ) (q : EndpointQueue) → q.ready ≡ true → Rounds now q (try_promote now q)
unfolding try_promote
try_promote-Rounds now q ready =
    simp ready (promote_loop-Rounds (length q.queue) now q (omega arith))

-- While the endpoint is not ready, `_try_promote` leaves the whole queue as it is.
pub try_promote_unready : (now : ℕ) (q : EndpointQueue) → q.ready ≡ false → try_promote now q ≡ q
unfolding try_promote
try_promote_unready now q down = simp down

-- Removing an entry keeps the order of the others.
pub data Sublist : List ℕ → List ℕ → Type 0 where
  done : Sublist [] []
  skip : {xs ys : List ℕ} (y : ℕ) → Sublist xs ys → Sublist xs (y ∷ ys)
  keep : {xs ys : List ℕ} (x : ℕ) → Sublist xs ys → Sublist (x ∷ xs) (x ∷ ys)

Sublist-all : (xs : List ℕ) → Sublist xs xs
Sublist-all [] = done
Sublist-all (x ∷ xs) = keep x (Sublist-all xs)

Sublist-trans : {xs ys zs : List ℕ} → Sublist xs ys → Sublist ys zs → Sublist xs zs
Sublist-trans s (skip y t) = skip y (Sublist-trans s t)
Sublist-trans (skip y s) (keep x t) = skip x (Sublist-trans s t)
Sublist-trans (keep x s) (keep y t) = keep x (Sublist-trans s t)
Sublist-trans done done = done

remove-Sublist : (e : ℕ) (xs : List ℕ) → Sublist (remove e xs) xs
unfolding remove
remove-Sublist e [] = done
remove-Sublist e (x ∷ xs) = elim (Bool-cases (nat_beq x e)) [
  | inl hit ↦ rw hit (skip x (Sublist-all xs))
  | inr miss ↦ rw miss (keep x (remove-Sublist e xs))
]

-- The entries that stay keep their order.
pub try_promote-Sublist : (now : ℕ) (q : EndpointQueue) → Sublist (try_promote now q).queue q.queue
try_promote-Sublist now q =
    try_promote_inv (λ p. Sublist p.queue q.queue) now
      (λ p e found h. rw (promote-queue now p e) (Sublist-trans (remove-Sublist e p.queue) h)) q
      (Sublist-all q.queue)
