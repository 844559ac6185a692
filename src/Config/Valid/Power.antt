-- ===== src/Config/Valid/Power.antt =====
-- What the builders of a power block ensure, and the check of a schedule.
use openai_ipmi_proxy.Prelude.{
  ◌≡◌, refl, String, true, false, Option, none, some, subst, sym, if◌then◌else◌, ◌==◌, string_eq,
  nat_eq, nat_beq_iff, Bool-cases, inl, inr, arith,
}
use openai_ipmi_proxy.Prelude.Lists.{contains}
use openai_ipmi_proxy.Prelude.Text.{count_words}
use openai_ipmi_proxy.Config.Result.{
  no_host, Result, ok, raised, ◌>>=◌, require, Ensures, Ensures-ok, Ensures-raised, Ensures-require,
  Ensures-bind, Ensures-after,
}
use openai_ipmi_proxy.Config.Node.{
  Node, null, bool, int, float, text, other, list, mapping, Fields, get_field,
}
use openai_ipmi_proxy.Config.Fields.{as_enum, get_str_opt}
use openai_ipmi_proxy.Config.Models.{PowerConfig, noop}
use openai_ipmi_proxy.Config.Sections.{Outside}
use openai_ipmi_proxy.Config.Power.{
  noop_states, validate_schedule, build_redfish, build_noop, build_aws_ec2, build_power,
}
use openai_ipmi_proxy.Config.Rules.{IsPower, IsSchedule}
use openai_ipmi_proxy.Config.Valid.Helpers.{as_enum-OneOf, get_str-IsFilled, get_enum-OneOf}

module _ {F : Type 0} (raw : Fields F) (place : String) where
  build_redfish-IsPower : Ensures (IsPower "redfish") (build_redfish raw place)
  unfolding build_redfish
  build_redfish-IsPower = Ensures-after λ host read_host. Ensures-after λ base_url read_url.
      Ensures-require _ λ located. Ensures-bind (get_str-IsFilled raw _ place) λ user named.
        Ensures-bind (get_str-IsFilled raw _ place) λ password secret.
          Ensures-after λ system_path read_system.
            Ensures-after λ verify_ssl read_verify. Ensures-ok _ (refl, named, secret)

  build_aws_ec2-IsPower : Ensures (IsPower "aws-ec2") (build_aws_ec2 raw place)
  unfolding build_aws_ec2 contains
  build_aws_ec2-IsPower = Ensures-after λ access_key read_access.
      Ensures-after λ secret_key read_secret. Ensures-after λ profile read_profile.
        Ensures-require _ λ authorised. Ensures-require _ λ both.
          Ensures-bind (get_str-IsFilled raw _ place) λ region named.
            Ensures-bind (get_str-IsFilled raw _ place) λ instance_id identified.
              Ensures-after λ session_token read_token.
                Ensures-bind (get_enum-OneOf raw _ place _ _ refl)
                  λ off_action known. Ensures-ok _ (refl, named, identified, known, authorised)

module _ {F : Type 0} (place : String) where
  build_noop-value :
      (v : Node F)
      → Ensures (IsPower "noop") (
          as_enum "initial_state" place noop_states v >>= λ initial.
          ok (noop (record { initial_state = initial })))
  build_noop-value v =
      Ensures-bind (as_enum-OneOf _ place _ v) λ initial known. Ensures-ok _ (refl, known)

  build_noop-IsPower : (o : Option (Node F)) → Ensures (IsPower "noop") (build_noop o place)
  unfolding build_noop contains
  build_noop-IsPower none = Ensures-ok _ (refl, refl)
  build_noop-IsPower (some (bool true)) = Ensures-ok _ (refl, refl)
  build_noop-IsPower (some (bool false)) = Ensures-ok _ (refl, refl)
  build_noop-IsPower (some null) = build_noop-value null
  build_noop-IsPower (some (int n)) = build_noop-value (int n)
  build_noop-IsPower (some (float x)) = build_noop-value (float x)
  build_noop-IsPower (some (text s)) = build_noop-value (text s)
  build_noop-IsPower (some (other b)) = build_noop-value (other b)
  build_noop-IsPower (some (list items)) = build_noop-value (list items)
  build_noop-IsPower (some (mapping fields)) = build_noop-value (mapping fields)

-- A test whether the kind is this one, with the builder of the kind
Ensures-kind :
    (kind this : String) (m n : Result PowerConfig)
    → Ensures (IsPower this) m
    → Ensures (IsPower kind) n
    → Ensures (IsPower kind) (if kind == this then m else n)
Ensures-kind kind this m n h k = elim (Bool-cases (kind == this)) [
  | inl same ↦
      rw same (subst (λ t. Ensures (IsPower t) m) (sym ((string_eq.agree kind this).0 same)) h)
  | inr different ↦ rw different k
]

pub build_power-IsPower :
    {F : Type 0} (raw : Fields F) (place kind : String)
    → Ensures (IsPower kind) (build_power raw kind place)
unfolding build_power
build_power-IsPower raw place kind =
    Ensures-kind kind "redfish" _ _ (build_redfish-IsPower raw place) (
      Ensures-kind kind "noop" _ _ (build_noop-IsPower place _)
        (Ensures-kind kind "aws-ec2" _ _ (build_aws_ec2-IsPower raw place) (Ensures-raised _)))

pub validate_schedule-IsSchedule :
    (outside : Outside) (schedule : Option String)
    → Ensures (λ done. IsSchedule outside schedule) (validate_schedule outside schedule)
unfolding validate_schedule require ◌>>=◌
validate_schedule-IsSchedule outside none = record { result = λ a e. tt }
validate_schedule-IsSchedule outside (some cron) = record {
  result = λ a e. ground (arith, e, nat_beq_iff (count_words true cron) 5);
}

-- A redfish block without a host and a base URL is refused.
abbrev pub HostRequired : Type 0 → Type 0
HostRequired F =
    (raw : Fields F) (place : String)
    → get_field "host" raw ≡ none
    → get_field "base_url" raw ≡ none
    → build_power raw "redfish" place ≡ raised (no_host place)

pub build_power-HostRequired : {F : Type 0} → HostRequired F
unfolding build_power build_redfish get_str_opt ◌>>=◌ require
build_power-HostRequired raw place host url = rw host (rw url refl)
