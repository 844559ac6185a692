-- ===== src/Config/Valid/Entries.antt =====
-- What one round of each loop over the entries of a list ensures.
use openai_ipmi_proxy.Prelude.{
  ℕ, ◌≡◌, refl, String, Bool, true, false, not, ◌&&◌, ◌||◌, List, Option, none, some, ◌==◌,
  string_eq, nat_eq, arith, leb,
}
use openai_ipmi_proxy.Prelude.Int.{ℤ, pos, ltb_ℤ, ◌≤ℤ◌, le_of_not_lt}
use openai_ipmi_proxy.Prelude.Lists.{contains}
use openai_ipmi_proxy.Prelude.Dict.{lookup}
use openai_ipmi_proxy.Config.Result.{
  Ensures, Ensures-ok, Ensures-raised, Ensures-require, Ensures-bind, Ensures-after,
}
use openai_ipmi_proxy.Config.Node.{Node, Floats}
use openai_ipmi_proxy.Config.Sections.{Outside}
use openai_ipmi_proxy.Config.Build.{
  bump, Seen, free_prefix, build_server, build_endpoint, build_client,
}
use openai_ipmi_proxy.Config.Rules.{OrderedLiterals, IsServer, IsEndpoint, IsClient}
use openai_ipmi_proxy.Config.Valid.Helpers.{get_str-IsFilled, get_enum-OneOf, get_float-NotBelow}
use openai_ipmi_proxy.Config.Valid.Parts.{
  build_session-IsSession, build_readiness-IsReadiness, build_status-IsStatus,
  build_children-IsChildren,
}
use openai_ipmi_proxy.Config.Valid.Power.{build_power-IsPower, validate_schedule-IsSchedule}

-- What a round of a loop adds to what was seen
abbrev pub Fresh : List String → String → Type 0
Fresh seen name = contains seen name ≡ false

not-true : (b : Bool) → not b ≡ true → b ≡ false
not-true true h = absurd (ground (arith, h))
not-true false h = refl

free_prefix-none :
    (prefix name : String) (owner : Option String)
    → Ensures (λ done. owner ≡ none) (free_prefix prefix name owner)
free_prefix-none prefix name none = Ensures-ok _ refl
free_prefix-none prefix name (some owner) = Ensures-raised _

queued_slots :
    (routing : String) (n : ℤ)
    → not (routing == "queued" && ltb_ℤ n (pos 1)) ≡ true
    → routing ≡ "queued"
    → pos 1 ≤ℤ n
queued_slots routing n h e =
    le_of_not_lt n (pos 1) (ground (arith, h, string_eq.agree routing "queued"))

module _ {F : Type 0} (floats : Floats F) (outside : Outside)
    (ordered : OrderedLiterals floats) where
  pub build_server-IsServer :
      (i : ℕ) (seen : List String) (node : Node F)
      → Ensures
          (λ s. IsServer floats outside s × Fresh seen s.name)
          (build_server floats outside i seen node)
  unfolding build_server
  build_server-IsServer i seen node = Ensures-after λ entry read_entry.
      Ensures-bind (get_str-IsFilled entry _ _) λ name filled. Ensures-require _ λ fresh.
        Ensures-after λ server_type known. Ensures-after λ power_raw read_power.
          Ensures-after λ schedule read_schedule.
            Ensures-bind (validate_schedule-IsSchedule outside schedule) λ done valid.
              Ensures-after λ url read_url.
                Ensures-bind (build_power-IsPower power_raw _ server_type) λ power matches.
                  Ensures-bind (get_float-NotBelow floats _ _ _ entry _ ordered (omega arith))
                    λ idle least. Ensures-after λ enabled read_enabled.
                      Ensures-after λ adopt read_adopt. Ensures-ok _ (
                        record {
                          name_filled = filled;
                          power_matches = matches;
                          schedule_valid = valid;
                          timeout_positive = least;
                        },
                        not-true _ fresh,
                      )

  pub build_endpoint-IsEndpoint :
      (servers : List String) (i : ℕ) (seen : Seen) (node : Node F)
      → Ensures
          (λ e.
            IsEndpoint floats servers e
            × Fresh seen.names e.name
            × (lookup e.path_prefix seen.prefixes ≡ none)
            × ((leb (bump e.catch_all seen.catch_all) 1 || not e.catch_all) ≡ true))
          (build_endpoint floats outside servers i seen node)
  unfolding build_endpoint contains
  build_endpoint-IsEndpoint servers i seen node = Ensures-after λ entry read_entry.
      Ensures-bind (get_str-IsFilled entry _ _) λ name filled. Ensures-require _ λ fresh.
        Ensures-after λ server read_server. Ensures-require _ λ known.
          Ensures-after λ prefix read_prefix. Ensures-require _ λ rooted.
            Ensures-bind (free_prefix-none prefix name _) λ done free. Ensures-require _ λ one.
              Ensures-bind (get_enum-OneOf entry _ _ _ _ refl) λ routing routed.
                Ensures-after λ concurrency read_concurrency. Ensures-require _ λ slots.
                  Ensures-after λ readiness_raw read_readiness.
                    Ensures-after λ session_raw read_session.
                      Ensures-bind (build_readiness-IsReadiness floats ordered readiness_raw _)
                        λ readiness ready.
                          Ensures-bind (get_enum-OneOf entry _ _ _ _ refl) λ wait_policy waits.
                            Ensures-after λ queue_timeout read_timeout.
                              Ensures-bind (build_session-IsSession floats ordered session_raw _)
                                λ session is_session. Ensures-after λ body_fields read_fields.
                                  Ensures-ok _ (
                                    record {
                                      name_filled = filled;
                                      server_known = known;
                                      prefix_rooted = rooted;
                                      routing_known = routed;
                                      policy_known = waits;
                                      slots = queued_slots routing concurrency slots;
                                      readiness_valid = ready;
                                      session_valid = is_session;
                                    },
                                    not-true _ fresh,
                                    free,
                                    one,
                                  )

  pub build_client-IsClient :
      (i : ℕ) (seen : List String) (node : Node F)
      → Ensures
          (λ c. IsClient floats c × Fresh seen c.name)
          (build_client floats outside i seen node)
  unfolding build_client
  build_client-IsClient i seen node = Ensures-after λ entry read_entry.
      Ensures-bind (get_str-IsFilled entry _ _) λ name filled. Ensures-require _ λ fresh.
        Ensures-after λ match_raw read_match. Ensures-after λ status_raw read_status.
          Ensures-after λ children_raw read_children. Ensures-after λ matching built.
            Ensures-bind (build_status-IsStatus floats ordered status_raw _) λ status status_valid.
              Ensures-bind (build_children-IsChildren children_raw _) λ children children_valid.
                Ensures-ok _ (
                  record {
                    name_filled = filled;
                    status_valid = status_valid;
                    children_valid = children_valid;
                  },
                  not-true _ fresh,
                )
