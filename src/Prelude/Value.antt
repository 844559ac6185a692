-- ===== src/Prelude/Value.antt =====
-- The values that `json.loads` returns.
use Prim.Native.String.{String}
use Prim.Native.Char.{Char}
use mathlib.Core.Bool.{Bool}
use mathlib.Core.Option.{Option, none, some}
use mathlib.Core.List.{List, [], ◌∷◌}
use openai_ipmi_proxy.Prelude.Tests.{if◌then◌else◌, ◌==◌, string_eq}
use openai_ipmi_proxy.Prelude.Int.{ℤ}

-- `decimal` is a float, by its `str`: the first character and the others.
mutual
  pub data Value : Type 0 where
    null : Value
    bool : Bool → Value
    int : ℤ → Value
    decimal : Char → String → Value
    text : String → Value
    array : Items → Value
    object : Fields → Value

  pub data Items : Type 0 where
    nil : Items
    cons : Value → Items → Items

  pub data Fields : Type 0 where
    end : Fields
    field : String → Value → Fields → Fields

-- `data.get(key)`, `none` where the key is missing. The parser keeps one field for each key.
unfoldable pub get_field : String → Fields → Option Value
get_field key end = none
get_field key (field k v rest) = if k == key then some v else get_field key rest

pub items_list : Items → List Value
items_list nil = []
items_list (cons v rest) = v ∷ items_list rest
