-- ===== src/Config/Environ.antt =====
-- relay/config.py: `_load_env_files`. `dotenv_values` is outside: a file is the list of its entries.
use openai_ipmi_proxy.Prelude.{
  ◌≡◌, refl, String, Bool, true, false, List, [], ◌∷◌, Option, none, some, if◌then◌else◌, ◌==◌,
  string_eq, arith, ap, sym, ◌∙◌,
}
use openai_ipmi_proxy.Prelude.Lists.{All}
use openai_ipmi_proxy.Prelude.Dict.{
  lookup, insert, has, lookup-insert, has-insert, lookup-has, has-eq-false,
}

-- `os.environ`
abbrev pub Environ : Type 0
Environ = List (String × String)

-- A key without a value stands for `None`.
abbrev pub EnvFile : Type 0
EnvFile = List (String × Option String)

-- The files that are there, by directory and by name
pub record EnvFiles : Type 0 where
  pub cwd_env : Option EnvFile
  pub config_env : Option EnvFile
  pub cwd_secrets : Option EnvFile
  pub config_secrets : Option EnvFile

-- `if value is not None: merged[key] = value`
abbrev pub set_given : String → Option String → Environ → Environ
set_given key none merged = merged
set_given key (some value) merged = insert key value merged

unfoldable pub merge : EnvFile → Environ → Environ
merge [] merged = merged
merge ((key, value) ∷ file) merged = merge file (set_given key value merged)

abbrev pub merge_file : Option EnvFile → Environ → Environ
merge_file none merged = merged
merge_file (some file) merged = merge file merged

-- `os.environ.setdefault(key, value)` for each item
abbrev pub set_default : String → String → Environ → Environ
set_default key value environ = if has key environ then environ else insert key value environ

unfoldable pub set_defaults : Environ → Environ → Environ
set_defaults [] environ = environ
set_defaults ((key, value) ∷ merged) environ = set_defaults merged (set_default key value environ)

-- The loops over the two names and the two directories
unfoldable pub merged_files : EnvFiles → Environ
unfolding merge
merged_files files =
    merge_file files.config_secrets
      (merge_file files.cwd_secrets (merge_file files.config_env (merge_file files.cwd_env [])))

unfoldable pub load_env_files : EnvFiles → Environ → Environ
unfolding merged_files set_defaults
load_env_files files environ = set_defaults (merged_files files) environ

abbrev pub or_else : Option String → Option String → Option String
or_else none other = other
or_else (some v) other = some v

-- The value that a file gives to a key: the last one
abbrev pub value_if : Bool → Option String → Option String
value_if true value = value
value_if false value = none

abbrev pub value_in : String → EnvFile → Option String
value_in k [] = none
value_in k ((key, value) ∷ file) = or_else (value_in k file) (value_if (key == k) value)

abbrev pub value_of : String → Option EnvFile → Option String
value_of k none = none
value_of k (some file) = value_in k file

or_else_assoc : (a b c : Option String) → or_else (or_else a b) c ≡ or_else a (or_else b c)
or_else_assoc none b c = refl
or_else_assoc (some v) b c = refl

or_else-none : (a : Option String) → or_else a none ≡ a
or_else-none none = refl
or_else-none (some v) = refl

lookup-set_given :
    (k key : String) (value : Option String) (merged : Environ)
    → lookup k (set_given key value merged) ≡ or_else (value_if (key == k) value) (lookup k merged)
lookup-set_given k key none merged = ground arith
lookup-set_given k key (some v) merged = ground (arith, lookup-insert key k v merged)

lookup-merge :
    (k : String) (file : EnvFile) (merged : Environ)
    → lookup k (merge file merged) ≡ or_else (value_in k file) (lookup k merged)
unfolding merge
lookup-merge k [] merged = refl
lookup-merge k ((key, value) ∷ file) merged =
    lookup-merge k file (set_given key value merged)
    ∙ ap (or_else (value_in k file)) (lookup-set_given k key value merged)
    ∙ sym (or_else_assoc (value_in k file) _ _)

lookup-merge_file :
    (k : String) (file : Option EnvFile) (merged : Environ)
    → lookup k (merge_file file merged) ≡ or_else (value_of k file) (lookup k merged)
lookup-merge_file k none merged = refl
lookup-merge_file k (some file) merged = lookup-merge k file merged

lookup-set_default :
    (k key value : String) (environ : Environ)
    → lookup k (set_default key value environ)
      ≡ or_else (lookup k environ) (if key == k then some value else none)
lookup-set_default k key value environ = ground (
  arith,
  lookup-insert key k value environ,
  has-eq-false k environ,
  lookup-has key environ,
  string_eq.agree key k,
)

lookup-set_defaults :
    (k : String) (merged environ : Environ)
    → lookup k (set_defaults merged environ) ≡ or_else (lookup k environ) (lookup k merged)
unfolding set_defaults lookup
lookup-set_defaults k [] environ = sym (or_else-none (lookup k environ))
lookup-set_defaults k ((key, value) ∷ merged) environ = ground (
  arith,
  lookup-set_defaults k merged (set_default key value environ),
  lookup-set_default k key value environ,
)

-- After `_load_env_files` a variable of the process keeps its value, also an empty one. Any other has the value of `secrets.env` before that of `.env`, and of the copy beside the configuration before that in the working directory; without one it stays unset.
pub load_env_files-precedence :
    (k : String) (files : EnvFiles) (environ : Environ)
    → lookup k (load_env_files files environ)
      ≡ or_else (lookup k environ) (
          or_else (value_of k files.config_secrets) (
            or_else
              (value_of k files.cwd_secrets)
              (or_else (value_of k files.config_env) (value_of k files.cwd_env))))
unfolding load_env_files merged_files lookup
load_env_files-precedence k files environ =
    lookup-set_defaults k (merged_files files) environ
    ∙ ap (or_else (lookup k environ)) (
        lookup-merge_file k files.config_secrets _
        ∙ ap (or_else (value_of k files.config_secrets)) (
            lookup-merge_file k files.cwd_secrets _
            ∙ ap (or_else (value_of k files.cwd_secrets)) (
                lookup-merge_file k files.config_env _
                ∙ ap (or_else (value_of k files.config_env)) (
                    lookup-merge_file k files.cwd_env []
                    ∙ or_else-none (value_of k files.cwd_env)))))

has-set_default :
    (k key value : String) (environ : Environ)
    → has k environ ≡ true
    → has k (set_default key value environ) ≡ true
has-set_default k key value environ h = ground (arith, h, has-insert key k value environ)

has-set_default_self :
    (key value : String) (environ : Environ) → has key (set_default key value environ) ≡ true
has-set_default_self key value environ =
    ground (arith, has-insert key key value environ, string_eq.agree key key)

has-set_defaults :
    (k : String) (merged environ : Environ)
    → has k environ ≡ true
    → has k (set_defaults merged environ) ≡ true
unfolding set_defaults
has-set_defaults k [] environ h = h
has-set_defaults k ((key, value) ∷ merged) environ h =
    has-set_defaults k merged (set_default key value environ)
      (has-set_default k key value environ h)

-- Every key of the files is set then.
abbrev AllSet : Environ → Environ → Type 0
AllSet merged environ = All (λ p. has p.0 environ ≡ true) merged

set_defaults-AllSet : (merged environ : Environ) → AllSet merged (set_defaults merged environ)
unfolding set_defaults
set_defaults-AllSet [] environ = tt
set_defaults-AllSet ((key, value) ∷ merged) environ = (
  has-set_defaults key merged (set_default key value environ)
      (has-set_default_self key value environ),
  set_defaults-AllSet merged (set_default key value environ),
)

set_defaults_nothing :
    (merged environ : Environ) → AllSet merged environ → set_defaults merged environ ≡ environ
unfolding set_defaults
set_defaults_nothing [] environ h = refl
set_defaults_nothing ((key, value) ∷ merged) environ h =
    ap (set_defaults merged) (ground (arith, h.0)) ∙ set_defaults_nothing merged environ h.1

pub load_env_files_twice :
    (files : EnvFiles) (environ : Environ)
    → load_env_files files (load_env_files files environ) ≡ load_env_files files environ
unfolding load_env_files
load_env_files_twice files environ =
    set_defaults_nothing (merged_files files) _ (set_defaults-AllSet (merged_files files) environ)
