-- ===== src/Clients/Detect.antt =====
-- relay/clients.py: `ClientProvider`, `detect_client` and `session_header_value`.
use openai_ipmi_proxy.Prelude.{
  ℕ, ◌≡◌, refl, inl, inr, String, Bool, true, ◌&&◌, ◌||◌, List, [], ◌∷◌, ◌++◌, Option, none, some,
  arith, if◌then◌else◌, Bool-cases, string_eq,
}
use openai_ipmi_proxy.Prelude.Lists.{any}
use openai_ipmi_proxy.Prelude.Dict.{lookup, insert}
use openai_ipmi_proxy.Prelude.Text.{starts_with, is_nonempty}

-- `children_kind`: "none" or "parent-chain"
pub data ChildrenKind : Type 0 where
  no_children parent_chain : ChildrenKind

pub record ClientProvider : Type 0 where
  pub name : String
  pub session_headers : List String
  pub gated_session_headers : List String
  pub ua_prefix : String
  pub status_path : String
  pub session_path : String
  pub pending_paths : List (String × String)
  pub children_kind : ChildrenKind
  pub children_depth : ℕ

abbrev pub Headers : Type 0
Headers = List (String × String)

-- `d.get(key, "")`
abbrev pub or_empty : Option String → String
or_empty none = ""
or_empty (some v) = v

-- `bool(d.get(header))`
abbrev pub is_given : Headers → String → Bool
is_given headers header = is_nonempty (or_empty (lookup header headers))

-- The first of the headers whose value is not empty
unfoldable pub first_value : List String → Headers → Option String
first_value [] headers = none
first_value (header ∷ names) headers =
    if is_given headers header
    then some (or_empty (lookup header headers))
    else first_value names headers

-- The two tests of the loop of `detect_client`
unfoldable pub identifies : Headers → String → ClientProvider → Bool
identifies lowered ua provider =
    any (is_given lowered) provider.session_headers
    || (is_nonempty provider.ua_prefix
        && (starts_with ua provider.ua_prefix
            && any (is_given lowered) provider.gated_session_headers))

unfoldable pub detect_loop : Headers → String → List ClientProvider → Option ClientProvider
unfolding identifies
detect_loop lowered ua [] = none
detect_loop lowered ua (provider ∷ providers) =
    if identifies lowered ua provider then some provider else detect_loop lowered ua providers

-- `str.lower` is a parameter: the theorems hold whatever it does.
module _ (lower : String → String) where
  -- `{k.lower(): v for k, v in headers.items()}`, added to a dictionary
  unfoldable pub lower_into : Headers → Headers → Headers
  lower_into [] lowered = lowered
  lower_into ((k, v) ∷ headers) lowered = lower_into headers (insert (lower k) v lowered)

  abbrev pub lower_keys : Headers → Headers
  lower_keys headers = lower_into headers []

  unfoldable pub detect_client : Headers → List ClientProvider → Option ClientProvider
  unfolding lower_into detect_loop
  detect_client headers providers =
      let lowered = lower_keys headers in
      detect_loop lowered (lower (or_empty (lookup "user-agent" lowered))) providers

  unfoldable pub session_header_value : ClientProvider → Headers → Option String
  unfolding lower_into first_value
  session_header_value provider headers =
      first_value (provider.session_headers ++ provider.gated_session_headers) (lower_keys headers)

-- What it means that a header gives this value
abbrev pub Gives : Option String → Type 0
Gives o = (v : String) × (o ≡ some v) × (is_nonempty v ≡ true)

first_value-Gives :
    (names : List String) (lowered : Headers)
    → any (is_given lowered) names ≡ true
    → Gives (first_value names lowered)
unfolding first_value any
first_value-Gives [] lowered h = ground (arith, h)
first_value-Gives (n ∷ names) lowered h = elim (Bool-cases (is_given lowered n)) [
  | inl given ↦ simp given (or_empty (lookup n lowered), refl, given)
  | inr missing ↦ simp missing (first_value-Gives names lowered (ground (arith, h, missing)))
]

any-append : (f : String → Bool) (xs ys : List String) → any f (xs ++ ys) ≡ (any f xs || any f ys)
unfolding any
any-append f [] ys = refl
any-append f (x ∷ xs) ys = ground (arith, any-append f xs ys)

pub first_value_holds :
    (names : List String) (lowered : Headers) (v : String)
    → first_value names lowered ≡ some v
    → is_nonempty v ≡ true
unfolding first_value
first_value_holds [] lowered v h = ground (arith, h)
first_value_holds (n ∷ names) lowered v h = elim (Bool-cases (is_given lowered n)) [
  | inl given ↦ ground (arith, h, given)
  | inr missing ↦ first_value_holds names lowered v (ground (arith, h, missing))
]

identifies-given :
    (lowered : Headers) (ua : String) (p : ClientProvider)
    → identifies lowered ua p ≡ true
    → any (is_given lowered) (p.session_headers ++ p.gated_session_headers) ≡ true
unfolding identifies
identifies-given lowered ua p h =
    ground (arith, h, any-append (is_given lowered) p.session_headers p.gated_session_headers)

detect_loop-identifies :
    (lowered : Headers) (ua : String) (providers : List ClientProvider) (p : ClientProvider)
    → detect_loop lowered ua providers ≡ some p
    → identifies lowered ua p ≡ true
unfolding detect_loop
detect_loop-identifies lowered ua [] p h = ground (arith, h)
detect_loop-identifies lowered ua (q ∷ providers) p h =
    elim (Bool-cases (identifies lowered ua q)) [
      | inl found ↦ ground (arith, h, found)
      | inr other ↦ detect_loop-identifies lowered ua providers p (ground (arith, h, other))
    ]

-- A client that is detected has a session header that is not empty: the session id of its request comes from its own headers, whichever rule detected it.
pub detect_client-session_header_value :
    (lower : String → String) (headers : Headers) (providers : List ClientProvider)
    (p : ClientProvider)
    → detect_client lower headers providers ≡ some p
    → Gives (session_header_value lower p headers)
unfolding detect_client session_header_value
detect_client-session_header_value lower headers providers p h =
    first_value-Gives (p.session_headers ++ p.gated_session_headers) (lower_keys lower headers) (
      identifies-given (lower_keys lower headers) _ p (
        detect_loop-identifies (lower_keys lower headers)
          (lower (or_empty (lookup "user-agent" (lower_keys lower headers)))) providers p h))
