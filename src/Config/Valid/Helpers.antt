-- ===== src/Config/Valid/Helpers.antt =====
-- What each helper that reads a field ensures of the value it returns.
use openai_ipmi_proxy.Prelude.{ℕ, ◌≤◌, String, List, Option, none, some, string_eq, arith}
use openai_ipmi_proxy.Prelude.Int.{ℤ, ◌≤ℤ◌, le_of_not_lt}
use openai_ipmi_proxy.Config.Result.{Result, Ensures, Ensures-ok, Ensures-raised}
use openai_ipmi_proxy.Config.Node.{Node, null, int, float, text, Fields, get_field, Floats, given}
use openai_ipmi_proxy.Config.Fields.{
  read, as_str, get_str, as_int, get_int, as_enum, get_enum, bounded_float, as_float, get_float,
}
use openai_ipmi_proxy.Config.Sections.{millis}
use openai_ipmi_proxy.Config.Rules.{OneOf, IsFilled, OrderedLiterals, NotBelow}

module _ {F : Type 0} (key place : String) where
  as_str-IsFilled : (v : Node F) → Ensures IsFilled (as_str key place v)
  unfolding as_str
  as_str-IsFilled (text s) = record { result = λ a e. ground (arith, e) }
  as_str-IsFilled null = Ensures-raised _
  as_str-IsFilled _ = Ensures-raised _

  pub as_enum-OneOf :
      (allowed : List String) (v : Node F) → Ensures (OneOf allowed) (as_enum key place allowed v)
  unfolding as_enum
  as_enum-OneOf allowed (text s) = record { result = λ a e. ground (arith, e) }
  as_enum-OneOf allowed null = Ensures-raised _
  as_enum-OneOf allowed _ = Ensures-raised _

  as_int-le : (least : ℤ) (v : Node F) → Ensures (λ n. least ≤ℤ n) (as_int key place (some least) v)
  unfolding as_int
  as_int-le least (int n) = record { result = λ a e. le_of_not_lt a least (ground (arith, e)) }
  as_int-le least null = Ensures-raised _
  as_int-le least _ = Ensures-raised _

-- The default, or the error, or what is converted
read-Ensures :
    {A B : Type 0} {P : B → Type 0} (o : Option A) (otherwise : Result B) (convert : A → Result B)
    → Ensures P otherwise
    → ((v : A) → Ensures P (convert v))
    → Ensures P (read o otherwise convert)
read-Ensures none otherwise convert h k = h
read-Ensures (some v) otherwise convert h k = k v

module _ {F : Type 0} (raw : Fields F) (key place : String) where
  pub get_str-IsFilled : Ensures IsFilled (get_str raw key place none)
  unfolding get_str
  get_str-IsFilled =
      read-Ensures (given (get_field key raw)) _ _ (Ensures-raised _) (as_str-IsFilled key place)

  pub get_enum-required :
      (allowed : List String) → Ensures (OneOf allowed) (get_enum raw key place allowed none)
  unfolding get_enum
  get_enum-required allowed =
      read-Ensures (given (get_field key raw)) _ _ (Ensures-raised _)
        (as_enum-OneOf key place allowed)

  pub get_enum-OneOf :
      (allowed : List String) (default : String)
      → OneOf allowed default
      → Ensures (OneOf allowed) (get_enum raw key place allowed (some default))
  unfolding get_enum
  get_enum-OneOf allowed default h =
      read-Ensures (given (get_field key raw)) _ _ (Ensures-ok default h)
        (as_enum-OneOf key place allowed)

  pub get_int-le :
      (default least : ℤ)
      → least ≤ℤ default
      → Ensures (λ n. least ≤ℤ n) (get_int raw key place (some default) (some least))
  unfolding get_int
  get_int-le default least h =
      read-Ensures (given (get_field key raw)) _ _ (Ensures-ok default h)
        (as_int-le key place least)

module _ {F : Type 0} (floats : Floats F) (key place : String) (least : ℕ) where
  bounded_float-NotBelow :
      (x : Option F)
      → Ensures (NotBelow floats least) (bounded_float floats key place (millis floats least) x)
  unfolding bounded_float
  bounded_float-NotBelow none = Ensures-raised _
  bounded_float-NotBelow (some x) = record { result = λ a e. ground (arith, e) }

  as_float-NotBelow :
      (v : Node F)
      → Ensures (NotBelow floats least) (as_float floats key place (millis floats least) v)
  unfolding as_float
  as_float-NotBelow (int n) = bounded_float-NotBelow (floats.of_int n)
  as_float-NotBelow (float x) = bounded_float-NotBelow (some x)
  as_float-NotBelow null = Ensures-raised _
  as_float-NotBelow _ = Ensures-raised _

  pub get_float-NotBelow :
      (raw : Fields F) (default : ℕ)
      → OrderedLiterals floats
      → least ≤ default
      → Ensures
          (NotBelow floats least)
          (get_float floats raw key place (millis floats default) (millis floats least))
  unfolding get_float
  get_float-NotBelow raw default ordered h =
      read-Ensures (given (get_field key raw)) _ _ (Ensures-ok _ (ordered default least h))
        as_float-NotBelow
