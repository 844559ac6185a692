-- ===== src/Config/Node.antt =====
-- What `yaml.safe_load` returns, as relay/config.py reads it.
use openai_ipmi_proxy.Prelude.{
  String, Bool, true, false, not, List, [], ◌∷◌, Option, none, some, if◌then◌else◌, ◌==◌, string_eq,
}
use openai_ipmi_proxy.Prelude.Int.{ℤ, pos, negsuc}
use Prim.Native.Nat.{zero, suc}
use openai_ipmi_proxy.Prelude.Text.{is_nonempty}

-- `F` is the type of the floats. `other` is a date or another value that the code never accepts, with
-- its truth value. A mapping has texts for keys, each once, since the code asks for no others.
mutual
  pub data Node (F : Type 0) : Type 0 where
    null : Node F
    bool : Bool → Node F
    int : ℤ → Node F
    float : F → Node F
    text : String → Node F
    other : Bool → Node F
    list : Items F → Node F
    mapping : Fields F → Node F

  pub data Items (F : Type 0) : Type 0 where
    nil : Items F
    cons : Node F → Items F → Items F

  pub data Fields (F : Type 0) : Type 0 where
    end : Fields F
    field : String → Node F → Fields F → Fields F

module _ {F : Type 0} where
  -- `section.get(key)`
  unfoldable pub get_field : String → Fields F → Option (Node F)
  get_field key end = none
  get_field key (field k v rest) = if k == key then some v else get_field key rest

  abbrev pub items_list : Items F → List (Node F)
  items_list nil = []
  items_list (cons v rest) = v ∷ items_list rest

  -- `None` and a missing key are the same to `_present`, `_section` and `_list_section`.
  abbrev pub given : Option (Node F) → Option (Node F)
  given none = none
  given (some null) = none
  given (some v) = some v

-- The floats and what the code asks of them: `float(n)` of an integer, `none` where it raises
-- `OverflowError`; a literal, in thousandths; `<`; and whether the truth value is false.
pub record Floats (F : Type 0) : Type 0 where
  pub of_int : ℤ → Option F
  pub literal : Prim.Native.Nat.ℕ → F
  pub less : F → F → Bool
  pub is_zero : F → Bool

-- `bool(value)`
module _ {F : Type 0} (floats : Floats F) where
  abbrev pub truth : Node F → Bool
  truth null = false
  truth (bool b) = b
  truth (int (pos zero)) = false
  truth (int (pos (suc n))) = true
  truth (int (negsuc n)) = true
  truth (float x) = not (floats.is_zero x)
  truth (text s) = is_nonempty s
  truth (other b) = b
  truth (list nil) = false
  truth (list (cons v rest)) = true
  truth (mapping end) = false
  truth (mapping (field k v rest)) = true
