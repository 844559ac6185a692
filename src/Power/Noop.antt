-- ===== src/Power/Noop.antt =====
-- relay/power/noop.py: `NoopBackend`.
use openai_ipmi_proxy.Prelude.{
  String, Bool, true, List, [], ◌∷◌, ◌++◌, Option, none, some, if◌then◌else◌, ◌==◌, string_eq,
}
use openai_ipmi_proxy.Power.Backend.{PowerState, on, off, PowerBackend}

pub record NoopBackend : Type 0 where
  pub state : PowerState
  pub actions : List String

-- `__init__`, with `config.initial_state` if there is a config.
unfoldable pub init : Option String → NoopBackend
init none = record { state = on; actions = [] }
init (some initial) = record { state = if initial == "on" then on else off; actions = [] }

unfoldable pub noop_on : NoopBackend → Bool × NoopBackend
noop_on b = (true, record { state = on; actions = b.actions ++ "power_on" ∷ [] })

unfoldable pub noop_off : NoopBackend → Bool × NoopBackend
noop_off b = (true, record { state = off; actions = b.actions ++ "power_off" ∷ [] })

unfoldable pub set_state : NoopBackend → PowerState → NoopBackend
set_state b state = record b { state = state }

abbrev pub noop_backend : PowerBackend NoopBackend
noop_backend = record { power_on = noop_on; power_off = noop_off; power_state = λ b. (b.state, b) }
