-- ===== src/Endpoint/Settled.antt =====
-- relay/endpoints.py: what becomes of the entry of a request that is not admitted.
use openai_ipmi_proxy.Prelude.{
  ℕ, ◌+◌, ◌-◌, ◌<◌, ◌≡◌, refl, ◌∙◌, inl, inr, true, false, List, if◌then◌else◌, arith, Bool-cases,
  beq_refl, nat_eq, string_eq, pair_eq,
}
use openai_ipmi_proxy.Prelude.Lists.{remove, contains, contains-remove_self}
use openai_ipmi_proxy.Queue.State.{EndpointQueue}
use openai_ipmi_proxy.Queue.Invariant.{IsValid}
use openai_ipmi_proxy.Queue.Admission.{abandon, release, finish_request, try_promote}
use openai_ipmi_proxy.Queue.Order.{Sublist, done, skip, keep, try_promote-Sublist}

Sublist-contains :
    {xs ys : List ℕ} (a : ℕ) → Sublist xs ys → contains ys a ≡ false → contains xs a ≡ false
unfolding contains
Sublist-contains a done h = refl
Sublist-contains a (skip y s) h = Sublist-contains a s (ground (arith, h))
Sublist-contains a (keep x s) h = ground (arith, h, Sublist-contains a s)

finish_request-queue :
    (now : ℕ) (q : EndpointQueue) (e : ℕ)
    → contains (finish_request now q e).queue e ≡ contains q.queue e
unfolding finish_request
finish_request-queue now q e = ground arith

granted_unqueued :
    (q : EndpointQueue) (e : ℕ) → IsValid q → (q.entries e).done ≡ true → contains q.queue e ≡ false
granted_unqueued q e v granted = elim (Bool-cases (contains q.queue e)) [
  | inl queued ↦ ground (arith, v.pending e queued, granted)
  | inr unqueued ↦ unqueued
]

-- A slot that was granted is given back: one request less of the session is in flight, with this time as its last, and then the queue promotes.
abbrev pub GivesBack : ℕ → ℕ → ℕ → EndpointQueue → EndpointQueue → Type 0
GivesBack now later entry q after =
    let r = (q.entries entry).session in
    (freed : EndpointQueue) × (after ≡ try_promote later freed)
    × ((freed.objects r).inflight + 1 ≡ (q.objects r).inflight)
    × ((freed.objects r).last_request_at ≡ now)
    × (freed.inflight_total ≡ q.inflight_total - 1)
    × (freed.queue ≡ q.queue)
    × (freed.spots ≡ q.spots)

-- An entry that waits leaves the queue, in which the others keep their order, and its session waits with one less.
abbrev pub Leaves : ℕ → EndpointQueue → EndpointQueue → Type 0
Leaves entry q after =
    let r = (q.entries entry).session in
    (after.queue ≡ remove entry q.queue)
    × ((after.objects r).waiting_count ≡ (q.objects r).waiting_count - 1)
    × ((after.objects r).inflight ≡ (q.objects r).inflight)
    × (after.spots ≡ q.spots)
    × (after.inflight_total ≡ q.inflight_total)

abbrev pub Settles : ℕ → ℕ → ℕ → EndpointQueue → EndpointQueue → Type 0
Settles now later entry q after =
    (contains after.queue entry ≡ false)
    × ((q.entries entry).done ≡ false → Leaves entry q after)
    × ((q.entries entry).done ≡ true
        → 0 < (q.objects (q.entries entry).session).inflight
        → GivesBack now later entry q after)

abandon-Leaves :
    (entry : ℕ) (q : EndpointQueue)
    → (q.entries entry).done ≡ false
    → Leaves entry q (abandon q entry)
unfolding abandon
abandon-Leaves entry q waits = ground (arith, waits, beq_refl (q.entries entry).session)

release-GivesBack :
    (now later entry : ℕ) (q : EndpointQueue)
    → 0 < (q.objects (q.entries entry).session).inflight
    → GivesBack now later entry q (release now later q entry)
unfolding release finish_request
release-GivesBack now later entry q runs = (
  finish_request now q entry,
  refl,
  ground (arith, runs, beq_refl (q.entries entry).session),
  ground (arith, runs, beq_refl (q.entries entry).session),
  ground (arith, runs),
  ground (arith, runs),
  ground (arith, runs),
)

removed_by_release :
    (now later entry : ℕ) (q : EndpointQueue)
    → IsValid q
    → (q.entries entry).done ≡ true
    → contains (release now later q entry).queue entry ≡ false
unfolding release
removed_by_release now later entry q v granted =
    Sublist-contains entry (try_promote-Sublist later (finish_request now q entry))
      (finish_request-queue now q entry ∙ granted_unqueued q entry v granted)

removed_by_abandon :
    (entry : ℕ) (q : EndpointQueue)
    → IsValid q
    → (q.entries entry).done ≡ false
    → contains (abandon q entry).queue entry ≡ false
unfolding abandon
removed_by_abandon entry q v waits = rw waits (contains-remove_self entry q.queue v.queue_distinct)

-- What the settling of a request that was not admitted does to its entry, in either case.
pub settle_entry :
    (now later entry : ℕ) (q : EndpointQueue)
    → IsValid q
    → Settles now later entry q
        (if (q.entries entry).done then release now later q entry else abandon q entry)
settle_entry now later entry q v = elim (Bool-cases (q.entries entry).done) [
  | inl granted ↦ simp granted (
    removed_by_release now later entry q v granted,
    (λ waits. absurd (ground (arith, waits))),
    λ h runs. release-GivesBack now later entry q runs,
  )
  | inr waits ↦ simp waits (
    removed_by_abandon entry q v waits,
    (λ h. abandon-Leaves entry q waits),
    λ granted runs. absurd (ground (arith, granted)),
  )
]
