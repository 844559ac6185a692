-- ===== src/App/Health.antt =====
-- The release of a spot by hand, the read timeout, and when `healthz` answers 200.
use openai_ipmi_proxy.Prelude.{
  ℕ, ◌+◌, ◌≤◌, ◌≡◌, ◌↔◌, refl, sym, ap, ◌∙◌, inl, inr, Bool-cases, arith, map, String, Bool, true,
  false, List, [], ◌∷◌, Option, none, some, string_eq,
}
use openai_ipmi_proxy.Prelude.Text.{is_nonempty}
use openai_ipmi_proxy.Prelude.Lists.{All}
use openai_ipmi_proxy.Prelude.Int.{pos}
use openai_ipmi_proxy.Prelude.Value.{Value, int, text, object, get_field, Fields}
use openai_ipmi_proxy.Power.Backend.{PowerBackend}
use openai_ipmi_proxy.Queue.Invariant.{IsValid}
use openai_ipmi_proxy.App.Relay.{Published, Relay, set_read_timeout, set_each}
use openai_ipmi_proxy.App.Actions.{
  Answer, not_found, released, timeout_set, set_to, answer_release, monitor_release, timeout_named,
  monitor_timeout, healthy, is_stale, first_stale, last_tick, last_sync, report, healthz,
}
use openai_ipmi_proxy.App.Effects.{release_loop-Releases, release_loop-IsValid, HoldsNone, Releases}

-- In time: there is a last one, and it is no longer ago than the limit.
abbrev pub IsRecent : ℕ → ℕ → Option ℕ → Type 0
IsRecent now limit none = ⊥
IsRecent now limit (some at) = now ≤ at + limit

module _ {A : Type 0} (now limit : ℕ) (last : A → Option ℕ) where
  stale_lem : (o : Option ℕ) → is_stale now limit o ≡ false ↔ IsRecent now limit o
  stale_lem none = ((λ h. ground (arith, h)), (λ h. absurd h))
  stale_lem (some at) = ((λ h. ground (arith, h)), (λ h. ground (arith, h)))

  first_stale-none :
      (items : List (String × A))
      → (first_stale now limit last items ≡ none) ↔ All (λ p. IsRecent now limit (last p.1)) items
  unfolding first_stale
  first_stale-none [] = ((λ h. tt), (λ h. refl))
  first_stale-none ((name, a) ∷ rest) = elim (Bool-cases (is_stale now limit (last a))) [
    | inl stale ↦ (
      (λ h. absurd (ground (arith, h, stale))),
      (λ h. absurd (ground (arith, stale, (stale_lem (last a)).1 h.0))),
    )
    | inr fine ↦ (
      (λ h. ((stale_lem (last a)).0 fine, (first_stale-none rest).0 (ground (arith, h, fine)))),
      (λ h. rw fine ((first_stale-none rest).1 h.1)),
    )
  ]

report_healthy :
    (degraded : Bool) (endpoint server : Option String) (body : Bool)
    → report degraded endpoint server ≡ healthy body
    → (endpoint ≡ none) × (server ≡ none) × (body ≡ degraded)
report_healthy degraded none none body h = (refl, refl, ground (arith, h))
report_healthy degraded none (some s) body h = absurd (ground (arith, h))
report_healthy degraded (some e) server body h = absurd (ground (arith, h))

-- `/healthz` answers 200 exactly when the queue manager of every endpoint has ticked within the last 5 seconds and the power of every server was asked for within the last 15; whether the store is degraded shows in the body and never in the status.
pub healthz-healthy :
    {B : Type 0} (now : ℕ) (relay : Relay B) (body : Bool)
    → (healthz now relay ≡ healthy body) ↔ (
        All (λ p. IsRecent now 5_000 p.1.last_manager_tick) relay.endpoints
        × All (λ p. IsRecent now 15_000 p.1.last_sync_at) relay.servers
        × (body ≡ relay.store_degraded))
unfolding healthz
healthz-healthy now relay body = (
  (λ h.
      let (ticks, syncs, same) = report_healthy relay.store_degraded _ _ body h in
      (
        (first_stale-none now 5_000 last_tick relay.endpoints).0 ticks,
        (first_stale-none now 15_000 last_sync relay.servers).0 syncs,
        same,
      )),
  (λ h.
      rw ((first_stale-none now 5_000 last_tick relay.endpoints).1 h.0)
        (rw ((first_stale-none now 15_000 last_sync relay.servers).1 h.1) (ap healthy (sym h.2)))),
)

-- The endpoint with this read timeout, and else as it was
abbrev pub timed : ℕ → String × Published → String × Published
timed value p = (p.0, record p.1 { read_timeout = value })

set_each_lem :
    (value : ℕ) (endpoints : List (String × Published))
    → set_each value endpoints ≡ map (timed value) endpoints
unfolding set_each
set_each_lem value [] = refl
set_each_lem value ((name, e) ∷ rest) = ap (◌∷◌ (timed value (name, e))) (set_each_lem value rest)

module _ {B : Type 0} (api : PowerBackend B) (repr : Value → String) (relay : Relay B) where
  -- The state with the timeout, and else as it was
  abbrev pub with_timeout : ℕ → Relay B
  with_timeout value = record relay {
    target_read_timeout = value;
    endpoints = map (timed value) relay.endpoints;
  }

  timeout_named-applies :
      (v : Option Value) (value : ℕ)
      → (timeout_named api repr relay v).0 ≡ timeout_set value
      → (v ≡ some (int (pos value))) × ((timeout_named api repr relay v).1 ≡ with_timeout value)
  unfolding set_read_timeout
  timeout_named-applies (some (int (pos n))) value h =
      let same : n ≡ value = ground (arith, h) in
      (
        ap (λ k. some (int (pos k))) same,
        ap (λ endpoints. record relay { target_read_timeout = n; endpoints = endpoints })
              (set_each_lem n relay.endpoints)
            ∙ ap with_timeout same,
      )
  timeout_named-applies v value h = absurd (ground (arith, h))

  -- When the monitor's new read timeout is accepted, the body asked for it, a natural number; the application and every endpoint have it then, and nothing else changes.
  pub monitor_timeout-applies :
      (json : Option Value) (value : ℕ)
      → (monitor_timeout api repr json relay).0 ≡ timeout_set value
      → ((fields : Fields) × (json ≡ some (object fields))
          × (get_field "read_timeout" fields ≡ some (int (pos value))))
        × ((monitor_timeout api repr json relay).1 ≡ with_timeout value)
  unfolding monitor_timeout
  monitor_timeout-applies (some (object fields)) value h =
      let (asked, applied) = timeout_named-applies (get_field "read_timeout" fields) value h in
      ((fields, refl, asked), applied)
  monitor_timeout-applies json value h = absurd (ground (arith, h))

  -- What the release of a session by hand may end in
  abbrev pub ReleaseOutcome : ℕ → String → String → Answer × Relay B → Type 0
  ReleaseOutcome now client session (released, after) =
      Releases now client session relay.endpoints (true, after.endpoints)
      × (record after { endpoints = relay.endpoints } ≡ relay)
  ReleaseOutcome now client session (not_found, after) =
      All (HoldsNone now client session) relay.endpoints × (after ≡ relay)
  ReleaseOutcome now client session _ = ⊥

  answer_release-outcome :
      (now : ℕ) (client session : String) (r : Bool × List (String × Published))
      → Releases now client session relay.endpoints r
      → ReleaseOutcome now client session (answer_release api repr relay r)
  answer_release-outcome now client session (true, after) h = (h, refl)
  answer_release-outcome now client session (false, after) h =
      (h.0, ap (λ endpoints. record relay { endpoints = endpoints }) h.1)

  answer_release-IsValid :
      (r : Bool × List (String × Published))
      → All (λ p. IsValid p.1.queue) r.1
      → All (λ p. IsValid p.1.queue) (answer_release api repr relay r).1.endpoints
  answer_release-IsValid (true, after) v = v
  answer_release-IsValid (false, after) v = v

  asked_for :
      (o : Option Value) (s : String)
      → o ≡ some (text s)
      → is_nonempty s ≡ true
      → set_to o ≡ some (text s)
  asked_for o s h full = ap set_to h ∙ rw full refl

  pub monitor_release-outcome :
      (now : ℕ) (fields : Fields) (client session : String)
      → get_field "client" fields ≡ some (text client)
      → get_field "session" fields ≡ some (text session)
      → is_nonempty client ≡ true
      → is_nonempty session ≡ true
      → All (λ p. IsValid p.1.queue) relay.endpoints
      → ReleaseOutcome now client session
          (monitor_release api repr now (some (object fields)) relay)
        × All
            (λ p. IsValid p.1.queue)
            (monitor_release api repr now (some (object fields)) relay).1.endpoints
  unfolding monitor_release
  monitor_release-outcome now fields client session is_client is_session c s v =
      rw (asked_for (get_field "client" fields) client is_client c) (
        rw (asked_for (get_field "session" fields) session is_session s) (
          answer_release-outcome now client session _
              (release_loop-Releases now client session relay.endpoints),
          answer_release-IsValid _ (release_loop-IsValid now client session relay.endpoints v),
        ))
