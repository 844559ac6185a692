-- ===== src/Config/References.antt =====
-- What `_interpolate` makes of the references in a text, and of a document that it has been through.
use openai_ipmi_proxy.Prelude.{
  fun_ext, ◌≡◌, refl, String, Bool, false, ◌&&◌, ◌||◌, List, [], ◌∷◌, Option, none, some,
  if◌then◌else◌, string_eq, arith, nat_beq, ap, ◌∙◌,
}
use Prim.Native.Char.{code}
use openai_ipmi_proxy.Prelude.Lists.{All}
use openai_ipmi_proxy.Prelude.Dict.{lookup}
use openai_ipmi_proxy.Prelude.Text.{is_nonempty, concat}
use openai_ipmi_proxy.Config.Result.{
  unset_variable, unsupported_reference, Result, ok, raised, ◌>>=◌,
}
use openai_ipmi_proxy.Config.Environ.{Environ}
use openai_ipmi_proxy.Config.Interpolate.{begins, resolve, sub, has_marker, interpolate_text}
use openai_ipmi_proxy.Config.Pieces.{
  Piece, plain, reference, print, IsPiece, sub-plain, sub-reference,
}

-- The value that a reference stands for: that of the variable, or the default if there is one and the variable is unset or empty
abbrev pub value_of : String → String → Option String → Option String → Result String
value_of place name none none = raised (unset_variable name place)
value_of place name none (some d) = ok d
value_of place name (some value) none = ok value
value_of place name (some String.[]) (some d) = ok d
value_of place name (some (String.◌∷◌ c value)) (some d) = ok (String.◌∷◌ c value)

-- The pieces with the values in place of the references, from left to right
unfoldable pub expand : Environ → String → List Piece → Result String
unfolding lookup
expand environ place [] = ok String.[]
expand environ place (plain s ∷ pieces) = expand environ place pieces >>= λ rest. ok (concat s rest)
expand environ place (reference name default ∷ pieces) =
    value_of place name (lookup name environ) default >>= λ value.
    expand environ place pieces >>= λ rest. ok (concat value rest)

resolve_found :
    (place name : String) (found default : Option String)
    → (elim found [
      | none ↦ elim default [ none ↦ raised (unset_variable name place) | some d ↦ ok d ]
      | some value ↦ elim default [
        | none ↦ ok value
        | some d ↦ ok (if is_nonempty value then value else d)
      ]
    ])
      ≡ value_of place name found default
resolve_found place name none none = refl
resolve_found place name none (some d) = refl
resolve_found place name (some value) none = refl
resolve_found place name (some String.[]) (some d) = refl
resolve_found place name (some (String.◌∷◌ c value)) (some d) = refl

resolve-value :
    (environ : Environ) (place name : String) (default : Option String)
    → resolve environ place name default ≡ value_of place name (lookup name environ) default
unfolding resolve
resolve-value environ place name default = resolve_found place name (lookup name environ) default

-- Two characters of the text that follow each other are a dollar sign and an opening brace.
unfoldable pub marked : String → Bool
marked String.[] = false
marked (String.◌∷◌ c String.[]) = false
marked (String.◌∷◌ c (String.◌∷◌ d s)) =
    (nat_beq (code c) b'$' && nat_beq (code d) b'{') || marked (String.◌∷◌ d s)

has_marker-marked : (s : String) → has_marker s ≡ marked s
unfolding has_marker marked begins
has_marker-marked String.[] = refl
has_marker-marked (String.◌∷◌ c String.[]) = ground arith
has_marker-marked (String.◌∷◌ c (String.◌∷◌ d s)) =
    ground (arith, has_marker-marked (String.◌∷◌ d s))

sub-print :
    (environ : Environ) (place : String) (pieces : List Piece)
    → All IsPiece pieces
    → sub environ place 0 (print pieces) ≡ expand environ place pieces
unfolding print expand
sub-print environ place [] h = unfold sub in refl
sub-print environ place (plain s ∷ pieces) h =
    sub-plain environ place s (print pieces) h.0
    ∙ ap (λ m. m >>= λ r. ok (concat s r)) (sub-print environ place pieces h.1)
sub-print environ place (reference name default ∷ pieces) h =
    sub-reference environ place name default (print pieces) h.0
    ∙ ap (λ m. resolve environ place name default >>= λ value. m >>= λ r. ok (concat value r))
        (sub-print environ place pieces h.1)
    ∙ ap (λ m. m >>= λ value. expand environ place pieces >>= λ r. ok (concat value r))
        (resolve-value environ place name default)

-- A text that is printed from plain pieces and references is interpolated to the pieces with the values in place of the references: the value of the variable, or the default where the variable is unset or empty. The first reference without either is the error, and so is a result that still has a dollar sign before an opening brace.
pub interpolate_text-print :
    (environ : Environ) (place : String) (pieces : List Piece)
    → All IsPiece pieces
    → interpolate_text environ place (print pieces) ≡ (
        expand environ place pieces >>= λ result.
        if marked result then raised (unsupported_reference place) else ok result)
unfolding interpolate_text
interpolate_text-print environ place pieces h =
    ap
      (λ m. m >>= λ result.
        if has_marker result then raised (unsupported_reference place) else ok result)
      (sub-print environ place pieces h)
    ∙ ap
        (λ (p : String → Bool). expand environ place pieces >>= λ result.
          if p result then raised (unsupported_reference place) else ok result)
        (fun_ext has_marker-marked)
