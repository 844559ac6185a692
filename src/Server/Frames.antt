-- ===== src/Server/Frames.antt =====
-- relay/servers.py: what a call leaves as it was, and which calls of the backend it records.
use openai_ipmi_proxy.Prelude.{
  ℕ, ◌+◌, ◌≡◌, refl, ◌∙◌, String, Bool, false, List, [], ◌∷◌, ◌++◌, arith, if◌then◌else◌, ◌==◌,
  string_eq,
}
use openai_ipmi_proxy.Power.Backend.{PowerState, on}
use openai_ipmi_proxy.Server.Runtime.{
  write, ServerRuntime, on_routed_traffic, note_service_ready, set_shutdown_override, set_state,
  StoreCall, log_power_event, power_on, power_off,
}
use openai_ipmi_proxy.Prelude.Lists.{count, count-append}

-- A power-on that the proxy issued by itself
unfoldable pub is_wake : StoreCall → Bool
is_wake (log_power_event power_on reason by ok) = by == "proxy"
is_wake _ = false

-- A power-off that the proxy issued by itself
unfoldable pub is_own_off : StoreCall → Bool
is_own_off (log_power_event power_off reason by ok) = by == "proxy"
is_own_off _ = false

unfoldable pub wakes : List StoreCall → ℕ
wakes = count is_wake

unfoldable pub own_offs : List StoreCall → ℕ
own_offs = count is_own_off

pub wakes-append :
    (j : List StoreCall) (c : StoreCall)
    → wakes (j ++ c ∷ []) ≡ wakes j + (if is_wake c then 1 else 0)
unfolding wakes count
wakes-append j c = ground (arith, count-append is_wake j (c ∷ []))

pub own_offs-append :
    (j : List StoreCall) (c : StoreCall)
    → own_offs (j ++ c ∷ []) ≡ own_offs j + (if is_own_off c then 1 else 0)
unfolding own_offs count
own_offs-append j c = ground (arith, count-append is_own_off j (c ∷ []))

-- A call that is no wake and keeps the proxy's hands off a server that it does not own
pub record Frame {B : Type 0} (s t : ServerRuntime B) : Type 0 where
  pub config : t.config ≡ s.config
  pub attempt : t.last_power_on_attempt ≡ s.last_power_on_attempt
  pub wakes : wakes t.journal ≡ wakes s.journal

-- A call that leaves a server that is not owned so, and powers nothing off
pub record StaysForeign {B : Type 0} (s t : ServerRuntime B) : Type 0 where
  pub config : t.config ≡ s.config
  pub owned : t.owned ≡ false
  pub own_offs : own_offs t.journal ≡ own_offs s.journal

module _ {B : Type 0} where
  pub write-Frame :
      (call : StoreCall) (s : ServerRuntime B) → is_wake call ≡ false → Frame s (write call s)
  write-Frame call s h = record {
    config = refl;
    attempt = refl;
    wakes = ground (arith, wakes-append s.journal call, h);
  }

  pub Frame-trans : (s t u : ServerRuntime B) → Frame s t → Frame t u → Frame s u
  Frame-trans s t u h k = record {
    config = k.config ∙ h.config;
    attempt = k.attempt ∙ h.attempt;
    wakes = k.wakes ∙ h.wakes;
  }

  pub set_state-Frame :
      (now : ℕ) (p : PowerState) (s : ServerRuntime B) → Frame s (set_state now p s)
  unfolding set_state
  set_state-Frame now p s = ground arith

  pub on_routed_traffic-Frame :
      (now : ℕ) (uuid : String) (s : ServerRuntime B) → Frame s (on_routed_traffic now uuid s)
  unfolding on_routed_traffic is_wake
  on_routed_traffic-Frame now uuid s = grind (arith, wakes-append)

  pub note_service_ready-Frame :
      (now : ℕ) (s : ServerRuntime B) → Frame s (note_service_ready now s)
  unfolding note_service_ready is_wake
  note_service_ready-Frame now s = grind (arith, wakes-append, set_state-Frame now on s)

  pub set_shutdown_override-Frame :
      (enabled : Bool) (s : ServerRuntime B) → Frame s (set_shutdown_override enabled s)
  unfolding set_shutdown_override is_wake
  set_shutdown_override-Frame enabled s = grind (arith, wakes-append)
