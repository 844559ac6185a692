-- ===== src/Config/Pieces.antt =====
-- Texts that are printed from plain pieces and references, and how `_ENV_VAR_RE.sub` reads them.
use openai_ipmi_proxy.Prelude.{
  ℕ, suc, ◌+◌, ◌≡◌, refl, String, Bool, true, not, ◌&&◌, List, [], ◌∷◌, Option, none, some,
  string_eq, arith, nat_beq, ap, ◌∙◌,
}
use Prim.Native.Char.{Char, code}
use Prim.Native.String.count
use openai_ipmi_proxy.Prelude.Text.{concat, text_len}
use openai_ipmi_proxy.Config.Result.{Result, ok, raised, ◌>>=◌}
use openai_ipmi_proxy.Config.Environ.{Environ}
use openai_ipmi_proxy.Config.Interpolate.{
  in_name, in_default, span, begins, named_well, Reference, match_end, match_at, resolve, sub,
}

-- A text in pieces: plain ones, and references with or without a default
pub data Piece : Type 0 where
  plain : String → Piece
  reference : String → Option String → Piece

abbrev pub print_end : Option String → String → String
print_end none rest = String.◌∷◌ "}" rest
print_end (some d) rest = String.◌∷◌ ":" (String.◌∷◌ "-" (concat d (String.◌∷◌ "}" rest)))

unfoldable pub print : List Piece → String
print [] = String.[]
print (plain s ∷ pieces) = concat s (print pieces)
print (reference name default ∷ pieces) =
    String.◌∷◌ "$" (String.◌∷◌ "{" (concat name (print_end default (print pieces))))

abbrev pub all_chars : (ℕ → Bool) → String → Bool
all_chars p String.[] = true
all_chars p (String.◌∷◌ c s) = p (code c) && all_chars p s

abbrev pub not_dollar : ℕ → Bool
not_dollar c = not (nat_beq c b'$')

abbrev pub IsDefault : Option String → Type 0
IsDefault none = Unit
IsDefault (some d) = all_chars in_default d ≡ true

-- A plain piece has no dollar sign, a name is one, and a default has no closing brace.
abbrev pub IsPiece : Piece → Type 0
IsPiece (plain s) = all_chars not_dollar s ≡ true
IsPiece (reference name default) =
    (named_well name ≡ true) × (all_chars in_name name ≡ true) × IsDefault default

abbrev stops : (ℕ → Bool) → String → Bool
stops p String.[] = true
stops p (String.◌∷◌ c s) = not (p (code c))

span-concat :
    (p : ℕ → Bool) (a rest : String)
    → all_chars p a ≡ true
    → stops p rest ≡ true
    → span p (concat a rest) ≡ (a, rest)
unfolding span concat
span-concat p String.[] String.[] all stop = refl
span-concat p String.[] (String.◌∷◌ c s) all stop = ground (arith, stop)
span-concat p (String.◌∷◌ c a) rest all stop =
    ground (arith, all, span-concat p a rest (ground (arith, all)) stop)

sub_skip :
    (environ : Environ) (place : String) (a s : String) (skip : ℕ)
    → sub environ place (text_len a + skip) (concat a s) ≡ sub environ place skip s
unfolding sub concat
sub_skip environ place String.[] s skip =
    let none_left : text_len String.[] + skip ≡ skip = omega (arith, count.nil) in
    ap (λ n. sub environ place n s) none_left
sub_skip environ place (String.◌∷◌ c a) s skip =
    let longer : text_len (String.◌∷◌ c a) + skip ≡ suc (text_len a + skip) =
      omega (arith, count.cons c a) in
    ap (λ n. sub environ place n (String.◌∷◌ c (concat a s))) longer
    ∙ sub_skip environ place a s skip

sub_skip_more :
    (environ : Environ) (place : String) (c : Char) (s : String) (skip n : ℕ)
    → n ≡ suc skip
    → sub environ place n (String.◌∷◌ c s) ≡ sub environ place skip s
unfolding sub
sub_skip_more environ place c s skip n e = ap (λ k. sub environ place k (String.◌∷◌ c s)) e

-- A character in front of what a chain makes
cons_after :
    (c : Char) (a : String) (m : Result String)
    → (m >>= (λ rest. ok (concat a rest)) >>= λ rest. ok (String.◌∷◌ c rest))
      ≡ (m >>= λ rest. ok (concat (String.◌∷◌ c a) rest))
unfolding concat ◌>>=◌
cons_after c a (ok r) = refl
cons_after c a (raised error) = refl

id_after : (m : Result String) → m ≡ (m >>= λ rest. ok (concat String.[] rest))
unfolding concat ◌>>=◌
id_after (ok r) = refl
id_after (raised error) = refl

no_match : (c : Char) (s : String) → not_dollar (code c) ≡ true → match_at (String.◌∷◌ c s) ≡ none
unfolding match_at begins
no_match c s h = ground (arith, h)

pub sub-plain :
    (environ : Environ) (place a rest : String)
    → all_chars not_dollar a ≡ true
    → sub environ place 0 (concat a rest) ≡ (sub environ place 0 rest >>= λ r. ok (concat a r))
unfolding sub concat
sub-plain environ place String.[] rest h = id_after (sub environ place 0 rest)
sub-plain environ place (String.◌∷◌ c a) rest h =
    let first : not_dollar (code c) ≡ true = ground (arith, h) in
    let others : all_chars not_dollar a ≡ true = ground (arith, h) in
    rw (no_match c (concat a rest) first, sub)
      (ap (λ m. m >>= λ r. ok (String.◌∷◌ c r)) (sub-plain environ place a rest others)
        ∙ cons_after c a (sub environ place 0 rest))

-- The reference that a printed one is read as
abbrev read_back : String → Option String → Reference
read_back name none = record { name = name; default = none; taken = text_len name + 2 }
read_back name (some d) = record {
  name = name;
  default = some d;
  taken = text_len name + text_len d + 4;
}

match_at-print :
    (name : String) (default : Option String) (rest : String)
    → IsPiece (reference name default)
    → match_at (String.◌∷◌ "$" (String.◌∷◌ "{" (concat name (print_end default rest))))
      ≡ some (read_back name default)
unfolding match_at match_end begins
match_at-print name none rest h =
    rw (span-concat in_name name (String.◌∷◌ "}" rest) h.1 refl) (rw h.0 refl)
match_at-print name (some d) rest h =
    rw (span-concat in_name name (print_end (some d) rest) h.1 refl)
      (rw h.0 (rw (span-concat in_default d (String.◌∷◌ "}" rest) h.2 refl) refl))

skip_end :
    (environ : Environ) (place name : String) (default : Option String) (rest : String)
    → sub environ place
        (read_back name default).taken
        (String.◌∷◌ "{" (concat name (print_end default rest)))
      ≡ sub environ place 0 rest
skip_end environ place name none rest =
    sub_skip_more environ place "{" _ (text_len name + 1) _ (omega arith)
    ∙ sub_skip environ place name (String.◌∷◌ "}" rest) 1
    ∙ sub_skip_more environ place "}" rest 0 _ refl
skip_end environ place name (some d) rest =
    sub_skip_more environ place "{" _ (text_len name + (text_len d + 3)) _ (omega arith)
    ∙ sub_skip environ place name (print_end (some d) rest) (text_len d + 3)
    ∙ sub_skip_more environ place ":" _ (text_len d + 2) _ (omega arith)
    ∙ sub_skip_more environ place "-" _ (text_len d + 1) _ (omega arith)
    ∙ sub_skip environ place d (String.◌∷◌ "}" rest) 1
    ∙ sub_skip_more environ place "}" rest 0 _ refl

pub sub-reference :
    (environ : Environ) (place name : String) (default : Option String) (rest : String)
    → IsPiece (reference name default)
    → sub environ place 0 (String.◌∷◌ "$" (String.◌∷◌ "{" (concat name (print_end default rest))))
      ≡ (resolve environ place name default >>= λ value.
          sub environ place 0 rest >>= λ r. ok (concat value r))
unfolding sub
sub-reference environ place name none rest h =
    rw (match_at-print name none rest h, sub) (rw (skip_end environ place name none rest) refl)
sub-reference environ place name (some d) rest h =
    rw (match_at-print name (some d) rest h, sub)
      (rw (skip_end environ place name (some d) rest) refl)
