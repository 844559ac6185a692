-- ===== src/Prelude/Digits.antt =====
-- Python's `str` of an integer, in decimal digits.
use Prim.Native.Nat.{ℕ, zero, suc, ◌<◌, ◌/◌, ◌%◌}
use Prim.Native.String.{String, char_at}
use mathlib.Core.Path.{◌≡◌, refl, ap}
use mathlib.Core.Logic.{inl, inr}
use mathlib.Core.Bool.{false}
use native.Mathlib.Omega.{arith}
use openai_ipmi_proxy.Prelude.Tests.{ltb, Bool-cases, if◌then◌else◌}
use openai_ipmi_proxy.Prelude.Int.{ℤ, pos, negsuc}
use openai_ipmi_proxy.Prelude.Text.{concat}

-- `str` of an integer
abbrev pub digit : ℕ → String
digit n = String.◌∷◌ (char_at "0123456789" n) String.[]

-- On fuel, of which a number needs no more than itself and one.
unfoldable pub digits : ℕ → ℕ → String
digits zero n = ""
digits (suc fuel) n =
    let rest = digits fuel (n / 10) in concat (if ltb n 10 then "" else rest) (digit (n % 10))

fewer_digits : (n fuel : ℕ) → ltb n 10 ≡ false → n < suc fuel → n / 10 < fuel
fewer_digits n fuel big h = ground (arith, big, h)

-- More fuel than the number changes nothing, so `str` has enough.
digits_enough : (fuel n : ℕ) → n < fuel → digits (suc fuel) n ≡ digits fuel n
unfolding digits
digits_enough zero n h = ground (arith, h)
digits_enough (suc fuel) n h = elim (Bool-cases (ltb n 10)) [
  | inl last ↦ simp last refl
  | inr more ↦ simp more (
      ap (λ rest. concat rest (digit (n % 10)))
        (digits_enough fuel (n / 10) (fewer_digits n fuel more h)))
]

unfoldable pub str : ℤ → String
unfolding digits
str (pos n) = digits (suc n) n
str (negsuc n) = concat "-" (digits (suc (suc n)) (suc n))
