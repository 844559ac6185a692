-- ===== src/Power/Retries.antt =====
-- relay/power/ipmi.py and redfish.py: how often the BMC is asked, and what its answer means.
use openai_ipmi_proxy.Prelude.{
  ℕ, zero, suc, ◌+◌, ◌≤◌, ◌<◌, ◌≡◌, refl, ◌≢◌, ◌⊎◌, inl, inr, String, [], ◌∷◌, Option, none, some,
  arith, Option-cases, Bool-cases, ap, nat_beq, ◌++◌, sym, ◌∙◌, ◌==◌, nat_eq, string_eq, ◌↔◌,
}
use openai_ipmi_proxy.Prelude.Value.{Value, text, object, get_field, Fields}
use openai_ipmi_proxy.Power.Backend.{PowerState, on, off, unknown}
use openai_ipmi_proxy.Power.Bmc.{Response, Call, BmcClient, request_loop, request}
use openai_ipmi_proxy.Power.Redfish.{state_of_field, state_of_json, state_of_response}

-- The answers to calls `from`, `from + 1`, ... up to `upto` are transport errors.
abbrev pub AllFailed : (ℕ → Option Response) → ℕ → ℕ → Type 0
AllFailed network from upto = (n : ℕ) → from ≤ n → n < upto → network n ≡ none

-- How a request that starts with call `from` and may try `left` times ends.
pub data Ends (network : ℕ → Option Response) (from left : ℕ) (answer : Option Response) (made : ℕ)
    : Type 0 where
  gave_up :
      answer ≡ none
      → made ≡ from + left
      → AllFailed network from made
      → Ends network from left answer made
  answered :
      (n : ℕ) (response : Response)
      → answer ≡ some response
      → network n ≡ some response
      → made ≡ suc n
      → from ≤ n
      → n < from + left
      → AllFailed network from n
      → Ends network from left answer made

AllFailed-cons :
    (network : ℕ → Option Response) (from upto : ℕ)
    → network from ≡ none
    → AllFailed network (suc from) upto
    → AllFailed network from upto
AllFailed-cons network from upto failed h n low high = elim (Bool-cases (nat_beq from n)) [
  | inl same ↦ ground (arith, failed)
  | inr later ↦ h n (ground arith) high
]

Ends-retry :
    (network : ℕ → Option Response) (from left : ℕ) (answer : Option Response) (made : ℕ)
    → network from ≡ none
    → Ends network (suc from) left answer made
    → Ends network from (suc left) answer made
Ends-retry network from left answer made failed (gave_up e m all) =
    gave_up e (omega arith) (AllFailed-cons network from made failed all)
Ends-retry network from left answer made failed (answered n r e a m low high all) =
    answered n r e a m (omega arith) (omega arith) (AllFailed-cons network from n failed all)

request_loop_lem :
    (left : ℕ) (c : BmcClient) (call : Call)
    → Ends c.network c.made left (request_loop left c call).0 (request_loop left c call).1.made
unfolding request_loop
request_loop_lem zero c call = gave_up refl (omega arith) (λ n a b. absurd (omega arith))
request_loop_lem (suc left) c call = elim (Option-cases (c.network c.made)) [
  | inl failed ↦
      rw (failed, request_loop)
        (Ends-retry c.network c.made left _ _ failed (
          request_loop_lem left (record c { made = suc c.made; calls = c.calls ++ call ∷ [] })
            call))
  | inr (response, got) ↦
      rw (got, request_loop)
        (answered c.made response refl got refl (omega arith) (omega arith)
          (λ n a b. absurd (omega arith)))
]

-- One management call asks the BMC until it answers, at most `max_attempts` times: the result is the first answer, any HTTP status included, and there is none exactly when all those attempts met transport errors.
pub request_lem :
    (c : BmcClient) (call : Call)
    → Ends c.network c.made c.max_attempts (request c call).0 (request c call).1.made
unfolding request
request_lem c call = request_loop_lem c.max_attempts c call

-- A 200 answer that is a JSON object whose "PowerState" is this word.
pub record Reports (word : String) (answer : Option Response) : Type 0 where
  pub response : Response
  pub fields : Fields
  pub came : answer ≡ some response
  pub success : response.status_code ≡ 200
  pub parsed : response.json ≡ some (object fields)
  pub found : get_field "PowerState" fields ≡ some (text word)

word_of_field :
    (o : Option Value) (st : PowerState)
    → state_of_field o ≡ st
    → st ≢ unknown
    → (word : String) × (o ≡ some (text word))
      × (((word ≡ "On") × (st ≡ on)) ⊎ ((word ≡ "Off") × (st ≡ off)))
unfolding state_of_field
word_of_field (some (text s)) st h known =
    (s, refl, ground (arith, string_eq.agree s "On", string_eq.agree s "Off"))
word_of_field o st h known = absurd (known (sym h))

fields_of_json :
    (o : Option Value) (st : PowerState)
    → state_of_json o ≡ st
    → st ≢ unknown
    → (fields : Fields) × (o ≡ some (object fields))
      × (state_of_field (get_field "PowerState" fields) ≡ st)
unfolding state_of_json
fields_of_json (some (object fields)) st h known = (fields, refl, h)
fields_of_json o st h known = absurd (known (sym h))

state_known-Reports :
    (answer : Option Response) (st : PowerState)
    → state_of_response answer ≡ st
    → st ≢ unknown
    → ((st ≡ on) × Reports "On" answer) ⊎ ((st ≡ off) × Reports "Off" answer)
unfolding state_of_response
state_known-Reports none st h known = absurd (known (sym h))
state_known-Reports (some r) st h known = elim (Bool-cases (r.status_code == 200)) [
  | inr other ↦ absurd (known (sym (rw other at h)))
  | inl success ↦
      let (fields, parsed, f) = fields_of_json r.json st (rw success at h) known in
      let (word, found, which) = word_of_field (get_field "PowerState" fields) st f known in
      elim which [
        | inl (w, e) ↦ inl (
          e,
          record {
            response = r;
            fields = fields;
            came = refl;
            success = ground arith;
            parsed = parsed;
            found = found ∙ ap (λ x. some (text x)) w;
          },
        )
        | inr (w, e) ↦ inr (
          e,
          record {
            response = r;
            fields = fields;
            came = refl;
            success = ground arith;
            parsed = parsed;
            found = found ∙ ap (λ x. some (text x)) w;
          },
        )
      ]
]

Reports-state :
    (word : String) (answer : Option Response)
    → Reports word answer
    → state_of_response answer ≡ state_of_field (some (text word))
unfolding state_of_response state_of_json
Reports-state word answer h =
    rw (h.came, state_of_response)
      (ground (arith, ap state_of_json h.parsed, h.success, ap state_of_field h.found))

Reports-on : (answer : Option Response) → Reports "On" answer → state_of_response answer ≡ on
unfolding state_of_field
Reports-on answer h = Reports-state "On" answer h

Reports-off : (answer : Option Response) → Reports "Off" answer → state_of_response answer ≡ off
unfolding state_of_field
Reports-off answer h = Reports-state "Off" answer h

-- An answer of the BMC reads as ON exactly when it is a 200 answer whose JSON object has "PowerState" "On", as OFF exactly when it has "Off" there; so every other answer, and none at all, reads as UNKNOWN.
pub state_of_response-Reports :
    (answer : Option Response)
    → ((state_of_response answer ≡ on) ↔ Reports "On" answer)
      × ((state_of_response answer ≡ off) ↔ Reports "Off" answer)
state_of_response-Reports answer = (
  (
    λ h. elim (state_known-Reports answer on h (λ e. cc)) [
      | inl (_, r) ↦ r
      | inr (e, _) ↦ absurd (cc)
    ],
    Reports-on answer,
  ),
  (
    λ h. elim (state_known-Reports answer off h (λ e. cc)) [
      | inl (e, _) ↦ absurd (cc)
      | inr (_, r) ↦ r
    ],
    Reports-off answer,
  ),
)
