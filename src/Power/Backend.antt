-- ===== src/Power/Backend.antt =====
-- relay/power/base.py: `PowerState` and the abstract class `PowerBackend`.
use openai_ipmi_proxy.Prelude.{Bool}

pub data PowerState : Type 0 where
  on off unknown : PowerState

-- `PowerBackend` over the state of an implementation. An implementation catches its own errors, so
-- a call has a result; `close`, which releases a connection, is left out.
pub record PowerBackend (B : Type 0) : Type 0 where
  pub power_on : B → Bool × B
  pub power_off : B → Bool × B
  pub power_state : B → PowerState × B
