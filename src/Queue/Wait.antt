-- ===== src/Queue/Wait.antt =====
-- relay/queue.py: `EndpointQueue.wait_for_slot`.
use openai_ipmi_proxy.Prelude.{
  ℕ, zero, suc, ◌+◌, ◌≤◌, ◌<◌, ◌≡◌, ◌∙◌, refl, ap, inl, inr, Bool, true, false, Option, none, some,
  List, [], ◌∷◌, ◌++◌, arith, nat_eq, string_eq, pair_eq, Option-cases, Bool-cases, if◌then◌else◌,
  leb,
}
use openai_ipmi_proxy.Prelude.Int.{ℤ, pos, negsuc}
use openai_ipmi_proxy.Prelude.Lists.{All}

-- The timeout setting: `if timeout and timeout > 0`, on a number that may be negative or missing.
abbrev pub deadline_of : Option ℤ → ℕ → Option ℕ
deadline_of none from = none
deadline_of (some (negsuc n)) from = none
deadline_of (some (pos zero)) from = none
deadline_of (some (pos (suc t))) from = some (from + suc t)

pub data Outcome : Type 0 where
  admitted disconnected timed_out : Outcome

-- What one round of the loop sees: whether the entry may go, whether the client is gone, the clock.
pub record Look : Type 0 where
  pub go : Bool
  pub gone : Bool
  pub now : ℕ

-- `deadline is not None and time.monotonic() >= deadline`
abbrev pub is_past : Option ℕ → ℕ → Bool
is_past none now = false
is_past (some deadline) now = leb deadline now

-- One round: a result, or another round a second later.
unfoldable pub wait_round : Option ℕ → Look → Option Outcome
wait_round deadline look =
    if look.go
    then some admitted
    else if look.gone
    then some disconnected
    else if is_past deadline look.now
    then some timed_out
    else none

-- The loop over the rounds that take place; `none` while it still waits.
unfoldable pub wait_loop : Option ℕ → List Look → Option Outcome
wait_loop deadline [] = none
wait_loop deadline (look ∷ looks) = elim (wait_round deadline look) [
  | some outcome ↦ some outcome
  | none ↦ wait_loop deadline looks
]

-- `wait_for_slot`, whose deadline counts from `enqueued_at`.
unfoldable pub wait_for_slot : Option ℤ → ℕ → List Look → Option Outcome
wait_for_slot timeout enqueued_at looks = wait_loop (deadline_of timeout enqueued_at) looks

-- In this round nothing ends the wait.
abbrev KeepsWaiting : Option ℕ → Look → Type 0
KeepsWaiting deadline look =
    (look.go ≡ false) × (look.gone ≡ false) × (is_past deadline look.now ≡ false)

-- What ends the wait with this result.
abbrev Decides : Option ℕ → Look → Outcome → Type 0
Decides deadline look admitted = look.go ≡ true
Decides deadline look disconnected = (look.go ≡ false) × (look.gone ≡ true)
Decides deadline look timed_out =
    (look.go ≡ false) × (look.gone ≡ false) × (is_past deadline look.now ≡ true)

round_waits :
    (deadline : Option ℕ) (look : Look)
    → wait_round deadline look ≡ none
    → KeepsWaiting deadline look
unfolding wait_round
round_waits deadline look h = ground arith

round-Decides :
    (deadline : Option ℕ) (look : Look) (o : Outcome)
    → wait_round deadline look ≡ some o
    → Decides deadline look o
unfolding wait_round
round-Decides deadline look admitted h = ground arith
round-Decides deadline look disconnected h = ground arith
round-Decides deadline look timed_out h = ground arith

wait_loop-split :
    (deadline : Option ℕ) (looks : List Look) (o : Outcome)
    → wait_loop deadline looks ≡ some o
    → (before after : List Look) × (look : Look) × (looks ≡ before ++ look ∷ after)
      × All (KeepsWaiting deadline) before
      × Decides deadline look o
unfolding wait_loop
wait_loop-split deadline [] o h = absurd (ground arith)
wait_loop-split deadline (look ∷ looks) o h = elim (Option-cases (wait_round deadline look)) [
  | inl undecided ↦
      let (before, after, l, parts, waits, decides) =
        wait_loop-split deadline looks o (rw (undecided, wait_loop) at h) in
      (
        look ∷ before,
        after,
        l,
        ap (◌∷◌ look) parts,
        (round_waits deadline look undecided, waits),
        decides,
      )
  | inr (x, decided) ↦
      ([], looks, look, refl, tt, round-Decides deadline look o (ground (arith, h, decided)))
]

wait_loop-ends :
    (deadline : ℕ) (before after : List Look) (look : Look)
    → deadline ≤ look.now
    → (o : Outcome) × (wait_loop (some deadline) (before ++ look ∷ after) ≡ some o)
unfolding wait_loop wait_round
wait_loop-ends deadline [] after look h = elim (Bool-cases look.go) [
  | inl go ↦ (admitted, ground arith)
  | inr held ↦ elim (Bool-cases look.gone) [
    | inl gone ↦ (disconnected, ground arith)
    | inr there ↦ (timed_out, ground arith)
  ]
]
wait_loop-ends deadline (l ∷ before) after look h =
    elim (Option-cases (wait_round (some deadline) l)) [
      | inl undecided ↦
          let (o, e) = wait_loop-ends deadline before after look h in
          (o, rw (undecided, wait_loop) e)
      | inr (o, decided) ↦ (o, rw (decided, wait_loop) refl)
    ]

-- With this timeout, counted from `from`, the time is up at `now`.
abbrev pub IsOver : Option ℤ → ℕ → ℕ → Type 0
IsOver timeout from now = (t : ℕ) × (timeout ≡ some (pos t)) × (0 < t) × (from + t ≤ now)

-- In this round the entry is held, the client is there, and the time is not up.
abbrev pub Holds : Option ℤ → ℕ → Look → Type 0
Holds timeout from look = (look.go ≡ false) × (look.gone ≡ false) × ¬ IsOver timeout from look.now

-- Why the wait ends in this round with this result
abbrev pub Ends : Option ℤ → ℕ → Look → Outcome → Type 0
Ends timeout from look admitted = look.go ≡ true
Ends timeout from look disconnected = (look.go ≡ false) × (look.gone ≡ true)
Ends timeout from look timed_out =
    (look.go ≡ false) × (look.gone ≡ false) × IsOver timeout from look.now

is_past-IsOver :
    (timeout : Option ℤ) (from now : ℕ)
    → is_past (deadline_of timeout from) now ≡ true
    → IsOver timeout from now
is_past-IsOver none from now h = absurd (ground (arith, h))
is_past-IsOver (some (negsuc n)) from now h = absurd (ground (arith, h))
is_past-IsOver (some (pos zero)) from now h = absurd (ground (arith, h))
is_past-IsOver (some (pos (suc t))) from now h = (suc t, refl, omega arith, ground (arith, h))

IsOver-is_past :
    (timeout : Option ℤ) (from now : ℕ)
    → is_past (deadline_of timeout from) now ≡ false
    → ¬ IsOver timeout from now
IsOver-is_past none from now h (t, same, positive, over) = ground (arith, same)
IsOver-is_past (some (negsuc n)) from now h (t, same, positive, over) = ground (arith, same)
IsOver-is_past (some (pos zero)) from now h (t, same, positive, over) =
    ground (arith, same, positive)
IsOver-is_past (some (pos (suc s))) from now h (t, same, positive, over) =
    ground (arith, same, over, h)

KeepsWaiting-Holds :
    (timeout : Option ℤ) (from : ℕ) (looks : List Look)
    → All (KeepsWaiting (deadline_of timeout from)) looks
    → All (Holds timeout from) looks
KeepsWaiting-Holds timeout from [] h = tt
KeepsWaiting-Holds timeout from (look ∷ looks) ((held, there, early), h) = (
  (held, there, IsOver-is_past timeout from look.now early),
  KeepsWaiting-Holds timeout from looks h,
)

Decides-Ends :
    (timeout : Option ℤ) (from : ℕ) (look : Look) (o : Outcome)
    → Decides (deadline_of timeout from) look o
    → Ends timeout from look o
Decides-Ends timeout from look admitted h = h
Decides-Ends timeout from look disconnected h = h
Decides-Ends timeout from look timed_out (held, there, late) =
    (held, there, is_past-IsOver timeout from look.now late)

-- A result is that of one round, and this is why.
abbrev pub IsDecided : Option ℤ → ℕ → List Look → Outcome → Type 0
IsDecided timeout from looks o =
    (before after : List Look) × (look : Look) × (looks ≡ before ++ look ∷ after)
    × All (Holds timeout from) before
    × Ends timeout from look o

-- The wait for a slot has a result when there is a round at whose time a positive timeout, counted from `enqueued_at`, is over. A result is that of one round: the entry was let go, or it was not and the client was gone, or neither and such a timeout was over. In every round before that one the entry was held, the client was there, and no such timeout was over.
pub wait_for_slot-Decides :
    (timeout : Option ℤ) (enqueued_at : ℕ) (looks : List Look)
    → ((o : Outcome)
        → wait_for_slot timeout enqueued_at looks ≡ some o
        → IsDecided timeout enqueued_at looks o)
      × ((before after : List Look) (look : Look)
          → looks ≡ before ++ look ∷ after
          → IsOver timeout enqueued_at look.now
          → (o : Outcome) × (wait_for_slot timeout enqueued_at looks ≡ some o))
unfolding wait_for_slot
wait_for_slot-Decides timeout enqueued_at looks = (
  (λ o h.
      let (before, after, look, parts, waits, decides) =
        wait_loop-split (deadline_of timeout enqueued_at) looks o h in
      (
        before,
        after,
        look,
        parts,
        KeepsWaiting-Holds timeout enqueued_at before waits,
        Decides-Ends timeout enqueued_at look o decides,
      )),
  λ before after look parts over.
      let (o, ended) = ends timeout before after look over in
      (o, ap (wait_loop (deadline_of timeout enqueued_at)) parts ∙ ended),
)
  where
    ends :
        (timeout : Option ℤ) (before after : List Look) (look : Look)
        → IsOver timeout enqueued_at look.now
        → (o : Outcome) × (wait_loop (deadline_of timeout enqueued_at) (before ++ look ∷ after)
            ≡ some o)
    ends none before after look (t, same, positive, over) = absurd (ground (arith, same))
    ends (some (negsuc n)) before after look (t, same, positive, over) =
        absurd (ground (arith, same))
    ends (some (pos zero)) before after look (t, same, positive, over) =
        absurd (ground (arith, same, positive))
    ends (some (pos (suc s))) before after look (t, same, positive, over) =
        wait_loop-ends (enqueued_at + suc s) before after look (ground (arith, same, over))
