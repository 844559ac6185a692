-- ===== src/Config/Fields.antt =====
-- relay/config.py: the helpers that read one field of a section.
use openai_ipmi_proxy.Prelude.{
  String, Bool, false, not, List, [], ◌∷◌, Option, none, some, if◌then◌else◌, string_eq,
}
use openai_ipmi_proxy.Prelude.Int.{ℤ, ltb_ℤ}
use openai_ipmi_proxy.Prelude.Lists.{contains}
use openai_ipmi_proxy.Prelude.Text.{is_nonempty, strip}
use openai_ipmi_proxy.Config.Result.{
  ConfigError, not_a_mapping, not_a_list, missing_field, not_a_text, empty_text, not_an_integer,
  not_a_number, below_minimum, not_a_boolean, not_allowed, not_texts, not_integers, float_overflow,
  Result, ok, raised,
}
use openai_ipmi_proxy.Config.Node.{
  Node, null, bool, int, float, text, list, mapping, Fields, end, get_field, items_list, given,
  Floats,
}

-- `not value.strip()`
unfoldable pub is_blank : String → Bool
unfolding strip
is_blank s = not (is_nonempty (strip s))

-- `default`, or the error for a required field
abbrev pub or_missing {ℓ} : {A : Type ℓ} → Option A → String → String → Result A
or_missing (some default) key place = ok default
or_missing none key place = raised (missing_field key place)

-- The error where the check of a list fails
abbrev pub or_raise {ℓ} : {A : Type ℓ} → ConfigError → Option A → Result A
or_raise error none = raised error
or_raise error (some checked) = ok checked

-- `value < minimum`, where there is a minimum
abbrev pub is_below {ℓ} : {A : Type ℓ} → (A → A → Bool) → A → Option A → Bool
is_below less value none = false
is_below less value (some minimum) = less value minimum

-- What is given is converted; else comes the default, or the error.
abbrev pub read {ℓ κ} : {A : Type ℓ} {B : Type κ} → Option A → Result B → (A → Result B) → Result B
read none otherwise convert = otherwise
read (some v) otherwise convert = convert v

module _ {F : Type 0} where
  -- `_section` and `_list_section`
  unfoldable pub section : Option (Node F) → String → Result (Fields F)
  section none place = ok end
  section (some null) place = ok end
  section (some (mapping fields)) place = ok fields
  section (some v) place = raised (not_a_mapping place)

  unfoldable pub list_section : Option (Node F) → String → Result (List (Node F))
  list_section none place = ok []
  list_section (some null) place = ok []
  list_section (some (list items)) place = ok (items_list items)
  list_section (some v) place = raised (not_a_list place)

  unfoldable pub as_str : String → String → Node F → Result String
  unfolding is_blank
  as_str key place (text s) = if is_blank s then raised (empty_text key place) else ok s
  as_str key place v = raised (empty_text key place)

  unfoldable pub get_str : Fields F → String → String → Option String → Result String
  unfolding get_field as_str
  get_str raw key place default =
      read (given (get_field key raw)) (or_missing default key place) (as_str key place)

  unfoldable pub as_str_opt : String → String → Node F → Result (Option String)
  as_str_opt key place (text s) = ok (some s)
  as_str_opt key place v = raised (not_a_text key place)

  unfoldable pub get_str_opt : Fields F → String → String → Result (Option String)
  unfolding get_field as_str_opt
  get_str_opt raw key place = read (given (get_field key raw)) (ok none) (as_str_opt key place)

  unfoldable pub as_int : String → String → Option ℤ → Node F → Result ℤ
  as_int key place minimum (int n) =
      if is_below ltb_ℤ n minimum then raised (below_minimum key place) else ok n
  as_int key place minimum v = raised (not_an_integer key place)

  unfoldable pub get_int : Fields F → String → String → Option ℤ → Option ℤ → Result ℤ
  unfolding get_field as_int
  get_int raw key place default minimum =
      read (given (get_field key raw)) (or_missing default key place) (as_int key place minimum)

  unfoldable pub as_bool : String → String → Node F → Result Bool
  as_bool key place (bool b) = ok b
  as_bool key place v = raised (not_a_boolean key place)

  unfoldable pub get_bool : Fields F → String → String → Option Bool → Result Bool
  unfolding get_field as_bool
  get_bool raw key place default =
      read (given (get_field key raw)) (or_missing default key place) (as_bool key place)

  unfoldable pub as_enum : String → String → List String → Node F → Result String
  as_enum key place allowed (text s) =
      if contains allowed s then ok s else raised (not_allowed key place)
  as_enum key place allowed v = raised (not_allowed key place)

  unfoldable pub get_enum : Fields F → String → String → List String → Option String → Result String
  unfolding get_field as_enum
  get_enum raw key place allowed default =
      read (given (get_field key raw)) (or_missing default key place) (as_enum key place allowed)

  -- The texts of a list, stripped; `none` if one is no text or is blank
  unfoldable pub all_texts : List (Node F) → Option (List String)
  unfolding is_blank
  all_texts [] = some []
  all_texts (text s ∷ rest) =
      let others = all_texts rest in
      if is_blank s then none else elim others [ none ↦ none | some xs ↦ some (strip s ∷ xs) ]
  all_texts (v ∷ rest) = none

  unfoldable pub as_str_list : String → String → Node F → Result (List String)
  unfolding all_texts
  as_str_list key place (list items) = or_raise (not_texts key place) (all_texts (items_list items))
  as_str_list key place v = raised (not_texts key place)

  -- A default of `None` is the empty list.
  unfoldable pub get_str_list : Fields F → String → String → List String → Result (List String)
  unfolding get_field as_str_list
  get_str_list raw key place default =
      read (given (get_field key raw)) (ok default) (as_str_list key place)

  unfoldable pub all_ints : List (Node F) → Option (List ℤ)
  all_ints [] = some []
  all_ints (int n ∷ rest) = elim (all_ints rest) [ none ↦ none | some xs ↦ some (n ∷ xs) ]
  all_ints (v ∷ rest) = none

  unfoldable pub as_int_list : String → String → Node F → Result (List ℤ)
  unfolding all_ints
  as_int_list key place (list items) =
      or_raise (not_integers key place) (all_ints (items_list items))
  as_int_list key place v = raised (not_integers key place)

  unfoldable pub get_int_list : Fields F → String → String → Option (List ℤ) → Result (List ℤ)
  unfolding get_field as_int_list
  get_int_list raw key place default =
      read (given (get_field key raw)) (or_missing default key place) (as_int_list key place)

module _ {F : Type 0} (floats : Floats F) where
  -- `value = float(value)` and the bound
  unfoldable pub bounded_float : String → String → Option F → Option F → Result F
  bounded_float key place minimum none = raised (float_overflow key place)
  bounded_float key place minimum (some x) =
      if is_below floats.less x minimum then raised (below_minimum key place) else ok x

  unfoldable pub as_float : String → String → Option F → Node F → Result F
  unfolding bounded_float
  as_float key place minimum (int n) = bounded_float key place minimum (floats.of_int n)
  as_float key place minimum (float x) = bounded_float key place minimum (some x)
  as_float key place minimum v = raised (not_a_number key place)

  unfoldable pub get_float : Fields F → String → String → Option F → Option F → Result F
  unfolding get_field as_float
  get_float raw key place default minimum =
      read (given (get_field key raw)) (or_missing default key place) (as_float key place minimum)
