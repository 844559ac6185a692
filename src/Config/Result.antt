-- ===== src/Config/Result.antt =====
-- relay/config.py: `ConfigError` as a value, and the chain of the steps that may raise it.
use openai_ipmi_proxy.Prelude.{subst, ap, ◌≡◌, refl, String, Bool, true, false, arith}

-- One constructor for each message, with the names in it: the field and the place where it stands.
-- `float_overflow` is the `OverflowError` of `float(value)`, which no handler catches.
pub data ConfigError : Type 0 where
  file_not_found invalid_yaml not_a_mapping_at_top : ConfigError
  unset_variable : String → String → ConfigError
  unsupported_reference : String → ConfigError
  not_a_mapping not_a_list : String → ConfigError
  missing_field not_a_text empty_text not_an_integer not_a_number : String → String → ConfigError
  below_minimum not_a_boolean not_allowed not_texts not_integers : String → String → ConfigError
  float_overflow : String → String → ConfigError
  no_five_fields invalid_cron : String → ConfigError
  no_host no_credentials one_key_only unsupported_type : String → ConfigError
  duplicate_name unknown_server relative_prefix : String → String → ConfigError
  identical_prefix : String → String → String → ConfigError
  second_catch_all no_slots : String → ConfigError
  path_not_creatable : String → ConfigError

pub data Result {ℓ} (A : Type ℓ) : Type ℓ where
  ok : A → Result A
  raised : ConfigError → Result A

ok_injective {ℓ} : {A : Type ℓ} (a b : A) → ok a ≡ ok b → a ≡ b
ok_injective a b h = ground (arith, h)

-- Proofs follow a chain by the rules below, and a test unfolds it.
infixl 5 ◌>>=◌ ◌>>◌
unfoldable pub ◌>>=◌ {ℓ κ} : {A : Type ℓ} {B : Type κ} → Result A → (A → Result B) → Result B
ok value >>= next = next value
raised error >>= next = raised error

abbrev pub ◌>>◌ {ℓ} : {B : Type ℓ} → Result (Unit {0}) → Result B → Result B
check >> next = check >>= λ done. next

-- `if not test: raise ConfigError(…)`
unfoldable pub require : Bool → ConfigError → Result (Unit {0})
require true error = ok tt
require false error = raised error

-- What `m` returns, when it returns, satisfies `P`.
pub record Ensures {ℓ} {A : Type ℓ} (P : A → Type ℓ) (m : Result A) : Type ℓ where
  pub result : (a : A) → m ≡ ok a → P a

module _ {ℓ} {A : Type ℓ} {P : A → Type ℓ} where
  pub Ensures-ok : (a : A) → P a → Ensures P (ok a)
  Ensures-ok a h = record { result = λ b e. subst P (ok_injective a b e) h }

  pub Ensures-raised : (error : ConfigError) → Ensures P (raised error)
  Ensures-raised error = record { result = λ a e. absurd (ground (arith, e)) }

  pub Ensures-require :
      {test : Bool} (error : ConfigError) {next : Result A}
      → (test ≡ true → Ensures P next)
      → Ensures P (require test error >> next)
  unfolding require ◌>>=◌
  Ensures-require {test = true} error rest = rest refl
  Ensures-require {test = false} error rest = Ensures-raised error

module _ {ℓ} {A B : Type ℓ} {P : B → Type ℓ} where
  -- A step whose result satisfies `Q`, and the rest of the chain
  pub Ensures-bind :
      {Q : A → Type ℓ} {m : Result A} {next : A → Result B}
      → Ensures Q m
      → ((a : A) → Q a → Ensures P (next a))
      → Ensures P (m >>= next)
  unfolding ◌>>=◌
  Ensures-bind {m = ok a} step rest = rest a (step.result a refl)
  Ensures-bind {m = raised error} step rest = Ensures-raised error

  -- A step of which nothing is needed but what it returned
  pub Ensures-after :
      {m : Result A} {next : A → Result B}
      → ((a : A) → m ≡ ok a → Ensures P (next a))
      → Ensures P (m >>= next)
  unfolding ◌>>=◌
  Ensures-after {m = ok a} rest = rest a refl
  Ensures-after {m = raised error} rest = Ensures-raised error

-- A step that returned, and the chain that goes on from its result
pub after_ok {ℓ κ} :
    {A : Type ℓ} {B : Type κ} {step : Result A} {a : A} (next : A → Result B)
    → step ≡ ok a
    → (step >>= next) ≡ next a
unfolding ◌>>=◌
after_ok next h = ap (λ m. m >>= next) h
