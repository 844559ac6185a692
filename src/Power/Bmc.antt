-- ===== src/Power/Bmc.antt =====
-- relay/power/ipmi.py: the calls of `BmcClient`, with their retries.
use openai_ipmi_proxy.Prelude.{ℕ, zero, suc, String, List, [], ◌∷◌, ◌++◌, Option, none, some}
use openai_ipmi_proxy.Prelude.Int.{ℤ}
use openai_ipmi_proxy.Prelude.Value.{Value}
use openai_ipmi_proxy.Queue.State.{at_least_one}

pub data Method : Type 0 where
  get post : Method

-- A response, with what `response.json()` gives: `none` if it raises `ValueError`.
pub record Response : Type 0 where
  pub status_code : ℕ
  pub json : Option Value

pub record Call : Type 0 where
  pub method : Method
  pub path : String
  pub reset_type : Option String

-- `network n` is what the HTTP library answers to call `n`: `none` for a `TransportError`. `calls`
-- are the calls made so far.
pub record BmcClient : Type 0 where
  pub max_attempts : ℕ
  pub network : ℕ → Option Response
  pub made : ℕ
  pub calls : List Call

-- `__init__` bounds the number of attempts from below.
unfoldable pub init : ℤ → (ℕ → Option Response) → BmcClient
init max_attempts network = record {
  max_attempts = at_least_one max_attempts;
  network = network;
  made = 0;
  calls = [];
}

abbrev pub send : BmcClient → Call → Option Response × BmcClient
send c call = (c.network c.made, record c { made = suc c.made; calls = c.calls ++ call ∷ [] })

-- The loop `for attempt in range(1, max_attempts + 1)`, by the attempts left.
unfoldable pub request_loop : ℕ → BmcClient → Call → Option Response × BmcClient
request_loop zero c call = (none, c)
request_loop (suc left) c call =
    let (answer, c') = send c call in
    elim answer [ some response ↦ (some response, c') | none ↦ request_loop left c' call ]

-- `request`
unfoldable pub request : BmcClient → Call → Option Response × BmcClient
request c call = request_loop c.max_attempts c call
