-- ===== src/Prelude/Text.antt =====
-- The operations on texts that the program uses: `startswith`, `len`, `+`, `str.split` on one character.
use Prim.Native.Nat.{ℕ, ◌+◌}
use Prim.Native.Char.{Char, code}
use Prim.Native.String.{String}
use mathlib.Core.List.{List, [], ◌∷◌}
use mathlib.Core.Bool.{Bool, true, not, ◌&&◌, ◌||◌}
use openai_ipmi_proxy.Prelude.Tests.{nat_beq, leb, if◌then◌else◌}
use Prim.Native.String.{◌++◌}
use Prim.Native.String.append
use text.Mathlib.TextPositions.{starts_with-append}
use mathlib.Core.Path.{◌≡◌, ap, ◌∙◌, subst}
pub use text.Mathlib.Text.{starts_with}
pub use text.Mathlib.TextEquality.{starts_with_iff}

-- `len(text)` counts characters.
abbrev pub text_len : String → ℕ
text_len = Prim.Native.String.count

-- `a + b`
unfoldable pub concat : String → String → String
concat String.[] b = b
concat (String.◌∷◌ c a) b = String.◌∷◌ c (concat a b)

-- `bool(text)`
abbrev pub is_nonempty : String → Bool
is_nonempty String.[] = Bool.false
is_nonempty (String.◌∷◌ c s) = Bool.true

-- One more character in front of the first part
abbrev push : Char → List String → List String
push c [] = (String.◌∷◌ c String.[]) ∷ []
push c (part ∷ parts) = (String.◌∷◌ c part) ∷ parts

-- `text.split(".")`, for the character of that code
unfoldable pub split : ℕ → String → List String
split at String.[] = String.[] ∷ []
split at (String.◌∷◌ c s) =
    if nat_beq (code c) at then String.[] ∷ split at s else push c (split at s)

-- `str.isspace` of one character, by its code
abbrev pub is_space : ℕ → Bool
is_space c =
    (leb 9 c && leb c 13)
    || (leb 28 c && leb c 32)
    || (nat_beq c 133 || nat_beq c 160 || nat_beq c 5_760 || nat_beq c 8_239 || nat_beq c 8_287)
    || (leb 8_192 c && leb c 8_202)
    || (nat_beq c 8_232 || nat_beq c 8_233 || nat_beq c 12_288)

-- `text.lstrip()`
unfoldable pub strip_left : String → String
strip_left String.[] = String.[]
strip_left (String.◌∷◌ c s) = if is_space (code c) then strip_left s else String.◌∷◌ c s

-- A character in front of what is left of the rest: it goes if it is dropped and nothing follows.
abbrev keep_unless : Bool → Char → String → String
keep_unless true c String.[] = String.[]
keep_unless drop c rest = String.◌∷◌ c rest

-- `text.rstrip()`, and `text.rstrip(chars)` for one character
unfoldable pub strip_right : (ℕ → Bool) → String → String
strip_right drop String.[] = String.[]
strip_right drop (String.◌∷◌ c s) = keep_unless (drop (code c)) c (strip_right drop s)

-- `text.strip()`
unfoldable pub strip : String → String
unfolding strip_left strip_right
strip s = strip_right is_space (strip_left s)

-- `len(text.split())`: how often a word begins, from after a space or not
unfoldable pub count_words : Bool → String → ℕ
count_words after_space String.[] = 0
count_words after_space (String.◌∷◌ c s) =
    (if after_space && not (is_space (code c)) then 1 else 0) + count_words (is_space (code c)) s

slash_append : (path : String) → "/" ++ path ≡ String.◌∷◌ "/" path
slash_append path = append.cons "/" String.[] path ∙ ap (λ s. String.◌∷◌ "/" s) (append.nil path)

pub starts_with_slash : (path : String) → starts_with (concat "/" path) "/" ≡ true
unfolding concat
starts_with_slash path =
    subst (λ p. starts_with p "/" ≡ true) (slash_append path) (starts_with-append "/" path)
