-- ===== src/Identity.antt =====
-- relay/endpoints.py: the session that a request or a WebSocket belongs to.
use openai_ipmi_proxy.Prelude.{
  ◌≡◌, refl, ◌≢◌, ◌⊎◌, inl, inr, String, true, List, [], ◌∷◌, ◌++◌, Option, none, some, arith,
  if◌then◌else◌, Bool-cases, Option-cases, string_eq,
}
use Prim.Native.Nat.{◌%◌}
use openai_ipmi_proxy.Prelude.Int.{ℤ, pos, negsuc}
use openai_ipmi_proxy.Prelude.Dict.{lookup}
use openai_ipmi_proxy.Prelude.Digits.{digit, digits, str}
use openai_ipmi_proxy.Prelude.Text.{is_nonempty, concat, split}
use openai_ipmi_proxy.Prelude.Value.{
  Value, null, bool, int, decimal, text, array, object, get_field,
}
use openai_ipmi_proxy.Clients.Detect.{
  Headers, ClientProvider, detect_client, session_header_value, lower_keys, lower_into, first_value,
  first_value_holds, or_empty, detect_client-session_header_value,
}

-- `for part in dotted_path.split("."): …`
unfoldable pub walk : List String → Option Value → Option Value
walk [] found = found
walk (part ∷ parts) (some (object fields)) = walk parts (get_field part fields)
walk (part ∷ parts) _ = none

-- The value as a text: a string that is not empty, or a number, but no Boolean.
unfoldable pub as_text : Option Value → Option String
unfolding str
as_text (some (text s)) = if is_nonempty s then some s else none
as_text (some (int n)) = some (str n)
as_text (some (decimal c s)) = some (String.◌∷◌ c s)
as_text _ = none

-- `extract_body_field`, on what `json.loads(body)` returns: `none` if it raises. The dot has code 46.
unfoldable pub extract_body_field : Option Value → String → Option String
unfolding walk as_text split
extract_body_field json dotted_path = as_text (walk (split 46 dotted_path) json)

unfoldable pub first_field : List String → Option Value → Option String
unfolding extract_body_field
first_field [] json = none
first_field (dotted ∷ fields) json = elim (extract_body_field json dotted) [
  | some value ↦ some value
  | none ↦ first_field fields json
]

-- `f"ua:{user_agent}|ip:{client_ip}"`
abbrev pub last_resort : String → String → String
last_resort user_agent client_ip = concat "ua:" (concat user_agent (concat "|ip:" client_ip))

-- What a header of a provider that was detected gives, or else the rest
abbrev pub or_unknown : Option String → String → String × String
or_unknown none fallback = ("unknown", fallback)
or_unknown (some value) fallback = ("unknown", value)

abbrev pub or_else : Option String → Option String → Option String
or_else none other = other
or_else (some value) other = some value

abbrev pub or_named : Option ClientProvider → Option String → String × String → String × String
or_named (some provider) (some value) rest = (provider.name, value)
or_named _ _ rest = rest

abbrev pub or_else_named : Option String → String × String → String × String
or_else_named none rest = rest
or_else_named (some value) rest = ("unknown", value)

module _ (lower : String → String) (providers : List ClientProvider)
    (generic_headers : List String) where
  -- `session_header_value(provider, lowered)`, where there is a provider
  abbrev pub own_value : Option ClientProvider → Headers → Option String
  own_value none lowered = none
  own_value (some provider) lowered = session_header_value lower provider lowered

  -- `resolve_session_id`
  unfoldable pub resolve_session_id :
      Headers → String → Option Value → List String → String × String
  unfolding lower_into detect_client session_header_value first_value first_field
  resolve_session_id headers client_ip json body_fields =
      let lowered = lower_keys lower headers in
      let provider = detect_client lower lowered providers in
      or_named provider (own_value provider lowered) (
        or_unknown (or_else (first_value generic_headers lowered) (first_field body_fields json))
          (last_resort (or_empty (lookup "user-agent" lowered)) client_ip))

  -- The query parameters, by the names of the headers
  abbrev pub query_value : Option ClientProvider → Headers → Option String
  query_value none query = none
  query_value (some provider) query =
      first_value (provider.session_headers ++ provider.gated_session_headers) query

  -- `resolve_session_id_ws`
  unfoldable pub resolve_session_id_ws : Headers → String → Headers → String × String
  unfolding lower_into detect_client session_header_value first_value
  resolve_session_id_ws headers client_ip query =
      let lowered = lower_keys lower headers in
      let provider = detect_client lower lowered providers in
      or_named provider (own_value provider lowered) (
        or_else_named (first_value generic_headers lowered) (
          or_named provider (query_value provider query) (
            or_unknown (first_value generic_headers query)
              (last_resort (or_empty (lookup "user-agent" lowered)) client_ip))))

concat-nonempty : (a b : String) → is_nonempty b ≡ true → is_nonempty (concat a b) ≡ true
unfolding concat
concat-nonempty String.[] b h = h
concat-nonempty (String.◌∷◌ c a) b h = refl

str-nonempty : (n : ℤ) → is_nonempty (str n) ≡ true
unfolding str digits concat
str-nonempty (pos n) = concat-nonempty _ (digit (n % 10)) refl
str-nonempty (negsuc n) = refl

as_text-nonempty :
    (found : Option Value) (v : String) → as_text found ≡ some v → is_nonempty v ≡ true
unfolding as_text
as_text-nonempty none v h = ground (arith, h)
as_text-nonempty (some (text s)) v h = elim (Bool-cases (is_nonempty s)) [
  | inl full ↦ ground (arith, h, full)
  | inr empty ↦ ground (arith, h, empty)
]
as_text-nonempty (some (int n)) v h = ground (arith, h, str-nonempty n)
as_text-nonempty (some (decimal c s)) v h = ground (arith, h)
as_text-nonempty (some null) v h = ground (arith, h)
as_text-nonempty (some (bool b)) v h = ground (arith, h)
as_text-nonempty (some (array items)) v h = ground (arith, h)
as_text-nonempty (some (object fields)) v h = ground (arith, h)

first_field-nonempty :
    (fields : List String) (json : Option Value) (v : String)
    → first_field fields json ≡ some v
    → is_nonempty v ≡ true
unfolding first_field
first_field-nonempty [] json v h = ground (arith, h)
first_field-nonempty (dotted ∷ fields) json v h =
    elim (Option-cases (extract_body_field json dotted)) [
      | inl missing ↦ first_field-nonempty fields json v (ground (arith, h, missing))
      | inr (value, found) ↦
          unfold extract_body_field in
          ground (arith, h, found, as_text-nonempty (walk (split 46 dotted) json) value found)
    ]

module _ (lower : String → String) (providers : List ClientProvider)
    (generic_headers : List String) where
  own_value-nonempty :
      (provider : Option ClientProvider) (lowered : Headers) (v : String)
      → own_value lower providers generic_headers provider lowered ≡ some v
      → is_nonempty v ≡ true
  own_value-nonempty none lowered v h = ground (arith, h)
  own_value-nonempty (some provider) lowered v h =
      unfold session_header_value in first_value_holds _ _ v h

  or_named-nonempty :
      (provider : Option ClientProvider) (value : Option String) (rest : String × String)
      → ((v : String) → value ≡ some v → is_nonempty v ≡ true)
      → is_nonempty rest.1 ≡ true
      → is_nonempty (or_named provider value rest).1 ≡ true
  or_named-nonempty none value rest h k = k
  or_named-nonempty (some provider) none rest h k = k
  or_named-nonempty (some provider) (some value) rest h k = h value refl

  or_unknown-nonempty :
      (value : Option String) (fallback : String)
      → ((v : String) → value ≡ some v → is_nonempty v ≡ true)
      → is_nonempty fallback ≡ true
      → is_nonempty (or_unknown value fallback).1 ≡ true
  or_unknown-nonempty none fallback h k = k
  or_unknown-nonempty (some value) fallback h k = h value refl

  -- The session id of a request is never empty, whatever its headers, its body and the configuration are.
  pub resolve_session_id-nonempty :
      (headers : Headers) (client_ip : String) (json : Option Value) (body_fields : List String)
      → is_nonempty
          (resolve_session_id lower providers generic_headers headers client_ip json body_fields).1
        ≡ true
  unfolding resolve_session_id concat
  resolve_session_id-nonempty headers client_ip json body_fields =
      let lowered = lower_keys lower headers in
      let provider = detect_client lower lowered providers in
      or_named-nonempty provider (own_value lower providers generic_headers provider lowered) _
        (λ v h. own_value-nonempty provider lowered v h)
        (or_unknown-nonempty
          (or_else (first_value generic_headers lowered) (first_field body_fields json))
          (last_resort (or_empty (lookup "user-agent" lowered)) client_ip)
          (λ v h. elim (Option-cases (first_value generic_headers lowered)) [
            | inl missing ↦ first_field-nonempty body_fields json v (ground (arith, h, missing))
            | inr (value, found) ↦
                first_value_holds generic_headers lowered v (ground (arith, h, found))
          ])
          refl)

  -- A header that identifies the session decides alone: where the client is detected, or a generic header is given, a request and a WebSocket with these headers belong to the same session, whatever the body, its fields and the query parameters are.
  pub resolve_session_id_same :
      (headers : Headers) (client_ip : String) (json : Option Value) (body_fields : List String)
      (query : Headers)
      → ((detect_client lower (lower_keys lower headers) providers ≢ none)
          ⊎ (first_value generic_headers (lower_keys lower headers) ≢ none))
      → resolve_session_id lower providers generic_headers headers client_ip json body_fields
        ≡ resolve_session_id_ws lower providers generic_headers headers client_ip query
  unfolding resolve_session_id resolve_session_id_ws
  resolve_session_id_same headers client_ip json body_fields query h =
      elim (Option-cases (detect_client lower (lower_keys lower headers) providers)) [
        | inl unknown ↦
            elim (Option-cases (first_value generic_headers (lower_keys lower headers))) [
              | inl missing ↦ ground (arith, h, unknown, missing)
              | inr (value, given) ↦ simp (unknown, given) refl
            ]
        | inr (provider, detected) ↦
            let (value, own, full) =
              detect_client-session_header_value lower (lower_keys lower headers) providers provider
                detected in
            simp (detected, own) refl
      ]
