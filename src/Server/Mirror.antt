-- ===== src/Server/Mirror.antt =====
-- relay/servers.py and relay/store.py: the row that mirrors a server, and its restoration at startup.
use openai_ipmi_proxy.Prelude.{
  ℕ, ◌≡◌, refl, ◌∙◌, sym, subst, String, Bool, true, false, not, ◌&&◌, List, [], ◌∷◌, ◌++◌, Option,
  none, some, arith, Bool-cases, inl, inr, string_eq,
}
use openai_ipmi_proxy.Power.Backend.{PowerState, on, off, unknown}
use openai_ipmi_proxy.Server.Runtime.{
  write, no_values, restored_state, parse_state, ServerRuntimeRow, ServerRuntime, is_on,
  on_routed_traffic, note_service_ready, set_shutdown_override, set_state, StoreCall,
  set_server_runtime, log_power_event, PowerAction, state_sync, external_change,
}

-- `state.value`
abbrev pub value : PowerState → String
value on = "on"
value off = "off"
value unknown = "unknown"

abbrev pub given : {A : Type 0} → Option A → A → A
given none old = old
given (some new) old = new

abbrev pub given_state : Option PowerState → Option String → Option String
given_state none old = old
given_state (some p) old = some (value p)

-- The update that `Store.set_server_runtime` makes to the row of the server
unfoldable pub update_row : StoreCall → ServerRuntimeRow → ServerRuntimeRow
update_row (log_power_event action reason by ok) row = row
update_row (set_server_runtime values) row = record {
  power_state = given_state values.power_state row.power_state;
  owned = given values.owned row.owned;
  shutdown_override = given values.shutdown_override row.shutdown_override;
  cycle_id = given values.cycle_id row.cycle_id;
}

-- The row once the calls of the journal were made, none of which failed.
unfoldable pub replay : List StoreCall → ServerRuntimeRow → ServerRuntimeRow
replay [] row = row
replay (call ∷ calls) row = replay calls (update_row call row)

-- The row that `reconcile_servers` inserts for a server it does not know.
abbrev pub new_row : ServerRuntimeRow
new_row = record {
  power_state = some "unknown";
  owned = false;
  shutdown_override = none;
  cycle_id = none;
}

replay-append :
    (calls : List StoreCall) (call : StoreCall) (row : ServerRuntimeRow)
    → replay (calls ++ call ∷ []) row ≡ update_row call (replay calls row)
unfolding replay
replay-append [] call row = refl
replay-append (c ∷ calls) call row = replay-append calls call (update_row c row)

restored_state-value : (p old : PowerState) → restored_state (some (value p)) old ≡ p
unfolding parse_state
restored_state-value on old = refl
restored_state-value off old = refl
restored_state-value unknown old = refl

-- A row from which `restore` gives the server back.
pub record Mirrors {B : Type 0} (row : ServerRuntimeRow) (s : ServerRuntime B) : Type 0 where
  pub power_state : restored_state row.power_state unknown ≡ s.power_state
  pub owned : row.owned ≡ s.owned
  pub shutdown_override : row.shutdown_override ≡ s.shutdown_override
  pub cycle_id : row.cycle_id ≡ s.cycle_id

module _ {B : Type 0} (row : ServerRuntimeRow) where
  abbrev pub IsMirrored : ServerRuntime B → Type 0
  IsMirrored s = Mirrors (replay s.journal row) s

  set_state-fields :
      (now : ℕ) (p : PowerState) (s : ServerRuntime B)
      → ((set_state now p s).journal ≡ s.journal)
        × ((set_state now p s).power_state ≡ p)
        × ((set_state now p s).owned ≡ s.owned)
        × ((set_state now p s).shutdown_override ≡ s.shutdown_override)
        × ((set_state now p s).cycle_id ≡ s.cycle_id)
  unfolding set_state
  set_state-fields now p s = ground arith

  pub write-IsMirrored :
      (call : StoreCall) (s : ServerRuntime B)
      → Mirrors (update_row call (replay s.journal row)) s
      → IsMirrored (write call s)
  write-IsMirrored call s h =
      let m =
        subst (λ (r : ServerRuntimeRow). Mirrors r s) (sym (replay-append s.journal call row)) h in
      record {
        power_state = m.power_state;
        owned = m.owned;
        shutdown_override = m.shutdown_override;
        cycle_id = m.cycle_id;
      }

  -- A server that differs only in what the row does not hold
  pub keep-IsMirrored :
      (s t : ServerRuntime B)
      → t.journal ≡ s.journal
      → t.power_state ≡ s.power_state
      → t.owned ≡ s.owned
      → t.shutdown_override ≡ s.shutdown_override
      → t.cycle_id ≡ s.cycle_id
      → IsMirrored s
      → IsMirrored t
  keep-IsMirrored s t j p o d c h = rw j (record {
    power_state = h.power_state ∙ sym p;
    owned = h.owned ∙ sym o;
    shutdown_override = h.shutdown_override ∙ sym d;
    cycle_id = h.cycle_id ∙ sym c;
  })

  pub log-IsMirrored :
      (action : PowerAction) (reason by : String) (ok : Bool) (s : ServerRuntime B)
      → IsMirrored s
      → IsMirrored (write (log_power_event action reason by ok) s)
  unfolding update_row
  log-IsMirrored action reason by ok s h =
      write-IsMirrored (log_power_event action reason by ok) s h

  pub on_routed_traffic-IsMirrored :
      (now : ℕ) (uuid : String) (s : ServerRuntime B)
      → IsMirrored s
      → IsMirrored (on_routed_traffic now uuid s)
  unfolding on_routed_traffic update_row
  on_routed_traffic-IsMirrored now uuid s h =
      elim (Bool-cases (s.config.adopt_on_traffic && not s.owned)) [
        | inl adopts ↦ simp adopts (
            log-IsMirrored external_change "adopted" "proxy" true _ (
              write-IsMirrored _ _ (record {
                power_state = h.power_state;
                owned = refl;
                shutdown_override = h.shutdown_override;
                cycle_id = refl;
              })))
        | inr keeps ↦ simp keeps (keep-IsMirrored s _ refl refl refl refl refl h)
      ]

  pub state-IsMirrored :
      (p : PowerState) (now : ℕ) (s : ServerRuntime B)
      → IsMirrored s
      → IsMirrored (
          write
            (set_server_runtime (record no_values { power_state = some p }))
            (set_state now p s))
  unfolding update_row
  state-IsMirrored p now s h =
      let same = set_state-fields now p s in
      write-IsMirrored (set_server_runtime (record no_values { power_state = some p }))
        (set_state now p s)
        (rw same.0 (record {
          power_state = restored_state-value p unknown ∙ sym same.1;
          owned = h.owned ∙ sym same.2;
          shutdown_override = h.shutdown_override ∙ sym same.3;
          cycle_id = h.cycle_id ∙ sym same.4;
        }))

  pub note_service_ready-IsMirrored :
      (now : ℕ) (s : ServerRuntime B) → IsMirrored s → IsMirrored (note_service_ready now s)
  unfolding note_service_ready
  note_service_ready-IsMirrored now s h = elim (Bool-cases (is_on s.power_state)) [
    | inl up ↦ simp up h
    | inr down ↦
        simp down
          (log-IsMirrored state_sync "service_ready" "proxy" true _ (state-IsMirrored on now s h))
  ]

  pub set_shutdown_override-IsMirrored :
      (enabled : Bool) (s : ServerRuntime B)
      → IsMirrored s
      → IsMirrored (set_shutdown_override enabled s)
  unfolding set_shutdown_override update_row
  set_shutdown_override-IsMirrored enabled s h = write-IsMirrored _ _ (record {
    power_state = h.power_state;
    owned = h.owned;
    shutdown_override = refl;
    cycle_id = h.cycle_id;
  })
