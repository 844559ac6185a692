-- ===== src/Config/Interpolate.antt =====
-- relay/config.py: `_ENV_VAR_RE` and `_interpolate`.
use openai_ipmi_proxy.Prelude.{
  ℕ, zero, suc, ◌+◌, String, Bool, false, not, ◌&&◌, ◌||◌, Option, none, some, if◌then◌else◌,
  string_eq, leb, nat_beq,
}
use Prim.Native.Char.{Char, code}
use openai_ipmi_proxy.Prelude.Int.{pos}
use openai_ipmi_proxy.Prelude.Digits.{str}
use openai_ipmi_proxy.Prelude.Dict.{lookup}
use openai_ipmi_proxy.Prelude.Text.{concat, is_nonempty, text_len}
use openai_ipmi_proxy.Config.Result.{
  unset_variable, unsupported_reference, Result, ok, raised, ◌>>=◌,
}
use openai_ipmi_proxy.Config.Node.{
  Node, null, bool, int, float, text, other, list, mapping, Items, nil, cons, Fields, end, field,
}
use openai_ipmi_proxy.Config.Environ.{Environ}

-- The classes of characters of the expression: `[A-Za-z_]`, `[A-Za-z0-9_]`, `[^}]`
abbrev pub starts_name : ℕ → Bool
starts_name c = (leb b'A' c && leb c b'Z') || (leb b'a' c && leb c b'z') || nat_beq c b'_'

abbrev pub in_name : ℕ → Bool
in_name c = starts_name c || (leb b'0' c && leb c b'9')

abbrev pub in_default : ℕ → Bool
in_default c = not (nat_beq c b'}')

-- As many characters of the class as there are, with how many, and the rest
abbrev put : Char → String × String → String × String
put c (taken, rest) = (String.◌∷◌ c taken, rest)

unfoldable pub span : (ℕ → Bool) → String → String × String
span p String.[] = (String.[], String.[])
span p (String.◌∷◌ c s) =
    let rest = put c (span p s) in if p (code c) then rest else (String.[], String.◌∷◌ c s)

-- `s` begins with this character.
unfoldable pub begins : ℕ → String → Bool
begins c String.[] = false
begins c (String.◌∷◌ d s) = nat_beq (code d) c

abbrev pub rest_of : String → String
rest_of String.[] = String.[]
rest_of (String.◌∷◌ c s) = s

abbrev pub named_well : String → Bool
named_well String.[] = false
named_well (String.◌∷◌ c s) = starts_name (code c)

-- A match of the expression: the name, the default, and how many characters it takes but the first
pub record Reference : Type 0 where
  pub name : String
  pub default : Option String
  pub taken : ℕ

-- After the default: the closing brace
abbrev pub close : String → String × String → Option Reference
close name (default, rest) =
    if begins b'}' rest
    then some (record {
      name = name;
      default = some default;
      taken = text_len name + text_len default + 4;
    })
    else none

-- After the name: a brace, or `:-` and a default
unfoldable pub match_end : String × String → Option Reference
unfolding span begins
match_end (name, rest) =
    if not (named_well name)
    then none
    else if begins b'}' rest
    then some (record { name = name; default = none; taken = text_len name + 2 })
    else if begins b':' rest && begins b'-' (rest_of rest)
    then close name (span in_default (rest_of (rest_of rest)))
    else none

-- The expression at the beginning of the text
unfoldable pub match_at : String → Option Reference
unfolding match_end
match_at s =
    if begins b'$' s && begins b'{' (rest_of s)
    then match_end (span in_name (rest_of (rest_of s)))
    else none

-- `_sub`: an empty value counts as unset where there is a default.
unfoldable pub resolve : Environ → String → String → Option String → Result String
resolve environ place name default = elim (lookup name environ) [
  | none ↦ elim default [ none ↦ raised (unset_variable name place) | some d ↦ ok d ]
  | some value ↦ elim default [
    | none ↦ ok value
    | some d ↦ ok (if is_nonempty value then value else d)
  ]
]

-- `_ENV_VAR_RE.sub(_sub, text)`, from the character that comes after so many that belong to a match
unfoldable pub sub : Environ → String → ℕ → String → Result String
unfolding match_at resolve
sub environ place skip String.[] = ok String.[]
sub environ place (suc skip) (String.◌∷◌ c s) = sub environ place skip s
sub environ place zero (String.◌∷◌ c s) = elim (match_at (String.◌∷◌ c s)) [
  | none ↦ sub environ place zero s >>= λ rest. ok (String.◌∷◌ c rest)
  | some r ↦ resolve environ place r.name r.default >>= λ value.
      sub environ place r.taken s >>= λ rest. ok (concat value rest)
]

-- `"${" in text`
unfoldable pub has_marker : String → Bool
unfolding begins
has_marker String.[] = false
has_marker (String.◌∷◌ c s) = (nat_beq (code c) b'$' && begins b'{' s) || has_marker s

unfoldable pub interpolate_text : Environ → String → String → Result String
unfolding sub has_marker
interpolate_text environ place s = sub environ place 0 s >>= λ result.
    if has_marker result then raised (unsupported_reference place) else ok result

-- `f"{key_path}.{key}"` and `f"{key_path}[{i}]"`
abbrev pub key_path : String → String → String
key_path place key = concat place (concat "." key)

abbrev pub index_path : String → ℕ → String
index_path place i = concat place (concat "[" (concat (str (pos i)) "]"))

-- `_interpolate`
unfoldable mutual
  pub interpolate : {F : Type 0} → Environ → String → Node F → Result (Node F)
  interpolate environ place (text s) =
      interpolate_text environ place s >>= λ result. ok (text result)
  interpolate environ place (list items) =
      interpolate_items environ place 0 items >>= λ items'. ok (list items')
  interpolate environ place (mapping fields) =
      interpolate_fields environ place fields >>= λ fields'. ok (mapping fields')
  interpolate environ place null = ok null
  interpolate environ place (bool b) = ok (bool b)
  interpolate environ place (int n) = ok (int n)
  interpolate environ place (float x) = ok (float x)
  interpolate environ place (other b) = ok (other b)

  pub interpolate_items : {F : Type 0} → Environ → String → ℕ → Items F → Result (Items F)
  interpolate_items environ place i nil = ok nil
  interpolate_items environ place i (cons v items) =
      interpolate environ (index_path place i) v >>= λ v'.
      interpolate_items environ place (suc i) items >>= λ items'. ok (cons v' items')

  pub interpolate_fields : {F : Type 0} → Environ → String → Fields F → Result (Fields F)
  interpolate_fields environ place end = ok end
  interpolate_fields environ place (field k v fields) =
      interpolate environ (key_path place k) v >>= λ v'.
      interpolate_fields environ place fields >>= λ fields'. ok (field k v' fields')
