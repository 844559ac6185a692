-- ===== src/Queue/Accounting.antt =====
-- relay/queue.py: the count of the requests in flight, and the atomic mode.
use openai_ipmi_proxy.Prelude.{
  ℕ, ◌+◌, ◌-◌, ◌≤◌, ◌<◌, ◌≡◌, ◌∙◌, sym, ap, fun_ext, inl, inr, true, some, [], ◌∷◌, arith, nat_eq,
  string_eq, pair_eq, Bool-cases, ltb,
}
use openai_ipmi_proxy.Prelude.Lists.{
  contains, find_holds, contains_of_find, contains_of_contains-remove, contains-append,
}
use openai_ipmi_proxy.Prelude.Heap.{update}
use openai_ipmi_proxy.Queue.State.{Session, EndpointQueue}
use openai_ipmi_proxy.Prelude.Heap.{sum_below, sum_below-update, le-sum_below}
use openai_ipmi_proxy.Queue.Admission.{
  eligible, promote, first_eligible, try_promote, append_entry, enqueue, release, finish_request,
}
use openai_ipmi_proxy.Queue.Promotion.{promote-queue, try_promote_inv}

-- `inflight` of each object.
abbrev pub inflight_of : EndpointQueue → ℕ → ℕ
inflight_of q r = (q.objects r).inflight

-- `inflight_total` is the sum over the sessions, and in atomic mode at most one request runs.
pub record IsCounted (q : EndpointQueue) : Type 0 where
  pub summed : sum_below q.next_object (inflight_of q) ≡ q.inflight_total
  pub single : q.atomic_requests ≡ true → q.inflight_total ≤ 1
  pub in_range : (e : ℕ) → contains q.queue e ≡ true → (q.entries e).session < q.next_object

inflight_of-promote :
    (now : ℕ) (q : EndpointQueue) (e : ℕ)
    → inflight_of (promote now q e)
      ≡ update (inflight_of q) (q.entries e).session (inflight_of q (q.entries e).session + 1)
unfolding promote
inflight_of-promote now q e = fun_ext (λ r. ground arith)

promote-rest :
    (now : ℕ) (q : EndpointQueue) (e : ℕ)
    → ((promote now q e).next_object ≡ q.next_object)
      × ((promote now q e).inflight_total ≡ q.inflight_total + 1)
      × ((promote now q e).atomic_requests ≡ q.atomic_requests)
unfolding promote
promote-rest now q e = ground arith

promote-session :
    (now : ℕ) (q : EndpointQueue) (e x : ℕ)
    → ((promote now q e).entries x).session ≡ (q.entries x).session
unfolding promote
promote-session now q e x = ground arith

eligible-idle :
    (q : EndpointQueue) (e : ℕ)
    → eligible q e ≡ true
    → q.atomic_requests ≡ true
    → q.inflight_total ≡ 0
unfolding eligible
eligible-idle q e h a = ground arith

promote-IsCounted :
    (now : ℕ) (q : EndpointQueue) (e : ℕ)
    → first_eligible q ≡ some e
    → IsCounted q
    → IsCounted (promote now q e)
promote-IsCounted now q e found c =
    let queued = contains_of_find (eligible q) q.queue e found in
    let r = (q.entries e).session in
    let (same_objects, total, mode) = promote-rest now q e in
    record {
      summed =
          rw (same_objects, total, inflight_of-promote now q e)
            (omega (
              arith,
              sum_below-update q.next_object r (inflight_of q r + 1) (inflight_of q)
                  (c.in_range e queued),
              c.summed,
            ));
      single = λ a. omega (
        arith,
        total,
        eligible-idle q e (find_holds (eligible q) q.queue e found) (sym mode ∙ a),
      );
      in_range = λ x h.
          rw (promote-session now q e x, same_objects)
            (c.in_range x
              (contains_of_contains-remove e x q.queue (rw (promote-queue now q e) at h)));
    }

pub try_promote-IsCounted :
    (now : ℕ) (q : EndpointQueue) → IsCounted q → IsCounted (try_promote now q)
try_promote-IsCounted now q c = try_promote_inv IsCounted now (promote-IsCounted now) q c

append_entry-IsCounted :
    (q : EndpointQueue) (e : ℕ)
    → (q.entries e).session < q.next_object
    → IsCounted q
    → IsCounted (append_entry q e)
unfolding append_entry contains
append_entry-IsCounted q e bound c = record {
  summed = ap (sum_below q.next_object) (fun_ext (λ r. ground arith)) ∙ c.summed;
  single = c.single;
  in_range = λ x h. ground (arith, c.in_range x, contains-append q.queue (e ∷ []) x);
}

-- A request that is taken in keeps the count of the requests in flight, and in atomic mode never lets a second one run, whatever it promotes.
pub enqueue-IsCounted :
    (now : ℕ) (q : EndpointQueue) (e : ℕ)
    → (q.entries e).session < q.next_object
    → IsCounted q
    → IsCounted (enqueue now q e)
unfolding enqueue
enqueue-IsCounted now q e bound c =
    try_promote-IsCounted now (append_entry q e) (append_entry-IsCounted q e bound c)

-- A write to one session, with the total moved as far as its `inflight`.
module _ (q : EndpointQueue) (r total : ℕ) (s : Session) where
  abbrev counted : EndpointQueue
  counted = record q { objects = update q.objects r s; inflight_total = total }

  inflight_of-write : inflight_of counted ≡ update (inflight_of q) r s.inflight
  inflight_of-write = fun_ext (λ x. ground arith)

  pub write-IsCounted :
      r < q.next_object
      → total + inflight_of q r ≡ q.inflight_total + s.inflight
      → total ≤ q.inflight_total
      → IsCounted q
      → IsCounted counted
  write-IsCounted bound moved less c = record {
    summed = rw inflight_of-write (
        omega (
          arith,
          sum_below-update q.next_object r s.inflight (inflight_of q) bound,
          c.summed,
          moved,
        ));
    single = λ a. omega (arith, c.single a);
    in_range = c.in_range;
  }

finish_request-IsCounted :
    (now : ℕ) (q : EndpointQueue) (e : ℕ)
    → (q.entries e).session < q.next_object
    → IsCounted q
    → IsCounted (finish_request now q e)
unfolding finish_request
finish_request-IsCounted now q e bound c =
    let r = (q.entries e).session in
    let s = q.objects r in
    elim (Bool-cases (ltb 0 s.inflight)) [
      | inl running ↦ simp running (
          write-IsCounted q r (q.inflight_total - 1)
            (record s { inflight = s.inflight - 1; last_request_at = now }) bound
            (ground (arith, c.summed, le-sum_below q.next_object r (inflight_of q) bound))
            (omega arith) c)
      | inr still ↦ simp still (
          write-IsCounted q r q.inflight_total (record s { last_request_at = now }) bound
            (omega arith) (omega arith) c)
    ]

-- When a request ends, the counts go down together, and what runs next keeps them.
pub release-IsCounted :
    (now later : ℕ) (q : EndpointQueue) (e : ℕ)
    → (q.entries e).session < q.next_object
    → IsCounted q
    → IsCounted (release now later q e)
unfolding release
release-IsCounted now later q e bound c =
    try_promote-IsCounted later (finish_request now q e) (finish_request-IsCounted now q e bound c)
