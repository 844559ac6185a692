-- ===== src/Config/Mistakes.antt =====
-- What the loader accepts although its messages say that it should not.
use openai_ipmi_proxy.Prelude.{
  ℕ, ◌≡◌, refl, ap, ◌∙◌, inl, inr, Bool-cases, String, true, List, none, some, string_eq,
}
use openai_ipmi_proxy.Prelude.Text.{is_nonempty}
use openai_ipmi_proxy.Config.Result.{
  ok, ◌>>=◌, require, Ensures, Ensures-ok, Ensures-require, Ensures-bind, Ensures-after,
}
use openai_ipmi_proxy.Config.Node.{text, mapping, Fields, end, field, get_field, Floats}
use openai_ipmi_proxy.Config.Fields.{section, get_str, get_str_opt, get_enum}
use openai_ipmi_proxy.Config.Models.{EndpointConfig, aws_ec2}
use openai_ipmi_proxy.Config.Sections.{Outside}
use openai_ipmi_proxy.Config.Power.{build_power}
use openai_ipmi_proxy.Config.Build.{Seen, is_truthy, build_endpoint}
use openai_ipmi_proxy.Config.Rules.{IsFilled}

module _ (F : Type 0) where
  -- A power block with an access key, a profile, a region and an instance, and no secret key
  abbrev pub half_pair : String → String → String → String → Fields F
  half_pair access_key profile region instance_id = field "access_key" (text access_key) (
      field "profile" (text profile)
        (field "region" (text region) (field "instance_id" (text instance_id) end)))

  -- An access key without its secret is accepted, whenever there is a profile: the check that needs both keys runs only where both are there.
  pub half_pair_accepted :
      (access_key profile region instance_id place : String)
      → is_nonempty profile ≡ true
      → IsFilled region
      → IsFilled instance_id
      → build_power (half_pair access_key profile region instance_id) "aws-ec2" place
        ≡ ok (
            aws_ec2 (record {
              region = region;
              instance_id = instance_id;
              access_key = some access_key;
              secret_key = none;
              session_token = none;
              profile = some profile;
              off_action = "stop";
            }))
  unfolding build_power get_str_opt get_str get_enum ◌>>=◌ require
  half_pair_accepted access_key profile region instance_id place p r i =
      elim (Bool-cases (is_nonempty access_key)) [
        | inl given ↦ rw given (rw p (rw r (rw i refl)))
        | inr empty ↦ rw empty (rw p (rw r (rw i refl)))
      ]

module _ {F : Type 0} (floats : Floats F) (outside : Outside) where
  text_catches_all-Ensures :
      (servers : List String) (i : ℕ) (seen : Seen) (entry : Fields F) (s : String)
      → get_field "catch_all" entry ≡ some (text s)
      → is_nonempty s ≡ true
      → Ensures
          (λ e. e.catch_all ≡ true)
          (build_endpoint floats outside servers i seen (mapping entry))
  unfolding build_endpoint section
  text_catches_all-Ensures servers i seen entry s is_text full =
      Ensures-bind {Q = λ found. found ≡ entry} (Ensures-ok entry refl) λ found same.
        Ensures-after λ name read_name. Ensures-require _ λ fresh.
          Ensures-after λ server read_server. Ensures-require _ λ known.
            Ensures-after λ prefix read_prefix. Ensures-require _ λ rooted.
              Ensures-after λ done free. Ensures-require _ λ one.
                Ensures-after λ routing read_routing. Ensures-after λ concurrency read_concurrency.
                  Ensures-require _ λ slots. Ensures-after λ readiness_raw read_readiness_raw.
                    Ensures-after λ session_raw read_session_raw.
                      Ensures-after λ readiness read_readiness.
                        Ensures-after λ wait_policy read_policy.
                          Ensures-after λ queue_timeout read_timeout.
                            Ensures-after λ session read_session.
                              Ensures-after λ body_fields read_fields. Ensures-ok _ (
                                ap (λ f. is_truthy floats (get_field "catch_all" f)) same
                                ∙ ap (is_truthy floats) is_text
                                ∙ full)

  -- A text that is not empty makes an endpoint the catch-all, whatever it says: `"false"` and `"no"` do.
  pub text_catches_all :
      (servers : List String) (i : ℕ) (seen : Seen) (entry : Fields F) (s : String)
      (endpoint : EndpointConfig F)
      → get_field "catch_all" entry ≡ some (text s)
      → is_nonempty s ≡ true
      → build_endpoint floats outside servers i seen (mapping entry) ≡ ok endpoint
      → endpoint.catch_all ≡ true
  text_catches_all servers i seen entry s endpoint is_text full =
      (text_catches_all-Ensures servers i seen entry s is_text full).result endpoint
